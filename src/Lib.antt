-- ===== src/Lib.antt =====
-- A model of the fleet server (fleet_server/, Python) and what it does right.
--
-- The server keeps a fleet of ESP32 devices in a SQL database. Devices report over MQTT; operators
-- work through an HTTP API; background jobs mark silent devices dead and start rollouts of firmware
-- that are due. These parts meet in the database only: each call of an endpoint, each message and
-- each run of a job has a session of its own, whose writes count when it commits.
--
-- Files, and the code that they model:
--   Models      models/*.py: a record for each table, `Database` for all of them
--   Session     database.py: a call is a function from a session to a result (a value, or the
--               exception that it raised) and the session after it; `commit` keeps the writes
--   Config      config.py: the settings that the code below reads
--   Ota         services/ota.py: selection of devices, rollouts, dry run, history, abort
--   Mqtt        mqtt/handlers.py (Heartbeat, Registration, OtaStatus) and the loop of mqtt/client.py
--   Scheduler   tasks/scheduler.py: DeadDevices and DueRollouts, with what they do in Sweep, Firing
--   Auth        api/auth.py and services/auth.py: Tokens, Guards, Accounts, Browser
--   Audit       services/audit.py
--   Alerting    services/alerting.py
--   ScheduledRollouts, DeviceGroups   api/scheduled_rollouts.py, api/device_groups.py
--   Broadcasts, Fcm                   services/broadcast.py, services/fcm.py
--   Repositories                      repositories/*.py
--   Provisioning, Firmware            services/provisioning.py; services/firmware.py, api/firmware.py
--   Http        middleware/error_handler.py, middleware/logging_middleware.py
--   Api         api/devices.py, homes.py, communities.py, ota.py, provisioning.py; Listings and
--               Receipts for the endpoints of other files that read, or take a receipt; Requests and
--               Handle for api/router.py: a request as a value, its guards and its endpoint
--   System      what can happen to the database: requests, messages, jobs, one after the other
--   Migrations  alembic/versions, a file for each revision; Schema says what the statements do
--   Seed, Health   scripts/seed.py; the health probe of main.py and middleware/request_id.py
--   Prelude     tests, lists, tables and texts that the others share; Examples uses the theorems
--
-- A table is the list of its rows; a query without ORDER BY gives them in this order, but for the
-- generic repository, whose order is an argument. Numbers are unbounded, as Python's are; times are microseconds. There is no fuel: every loop of the code runs
-- over a list. The constraints of the schema are tested where a modelled write can break them, and
-- are exceptions then.
--
-- Parameters, since they are no code of this repository: JSON parsing and the conversion of values
-- by the database driver (`Driver`), bcrypt and the JWT library (`Crypto`), the MQTT publisher,
-- the HTTP transports of alerts and pushes, jinja with docker and the file system (`Toolchain`),
-- what SQLAlchemy does for the class of a generic repository (`Model`), the hash of a binary, random
-- texts, the clock, and the orders and the pattern matching of the database.
--
-- Not modelled: the wiring of the application, the runner of the migrations, the texts of HTTP
-- errors, column lengths, creation times that no modelled code reads, row locks, sessions that run
-- at the same time, and the firmware of the devices. A run of the scheduler reads the clock
-- several times; here it has one time.
pub mod Prelude
pub mod Models
pub mod Config
pub mod Session
pub mod Ota
pub mod Mqtt
pub mod Audit
pub mod Alerting
pub mod Scheduler
pub mod Auth
pub mod ScheduledRollouts
pub mod DeviceGroups
pub mod Broadcasts
pub mod Repositories
pub mod Provisioning
pub mod Firmware
pub mod Http
pub mod Fcm
pub mod Api
pub mod System
pub mod Migrations
pub mod Seed
pub mod Health
pub mod Examples
