-- ===== src/Mqtt.antt =====
-- fleet_server/mqtt: what devices report over MQTT.
pub mod Json
pub mod Heartbeat
pub mod Registration
pub mod OtaStatus
pub mod Client
pub mod Reads
pub mod Finality
pub mod Stops
