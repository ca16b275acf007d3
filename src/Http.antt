-- ===== src/Http.antt =====
-- What the HTTP layer makes of an exception: middleware/error_handler.py, with FastAPI's handling
-- of HTTPException; and the level of the access log: middleware/logging_middleware.py.
use mdmfleetmanagement.Prelude.{ℕ, String, Option, none, some, if◌then◌else◌, ◌==◌, leb}
use mdmfleetmanagement.Models.{Database}
use mdmfleetmanagement.Session.{Action, Error, Result, ok, err, http, integrity_error, open_session}

-- register_error_handlers: the status of the response to an exception.
unfoldable pub status_of : Error → ℕ
status_of (http code) = code
status_of integrity_error = 409
status_of _ = 500

pub record Response : Type 0 where
  pub status : ℕ
  pub db : Database

unfoldable pub status_of_result : {A : Type 0} → ℕ → Result A → ℕ
status_of_result success (ok a) = success
status_of_result success (err e) = status_of e

-- A request: the endpoint runs in a session of its own, which is closed at the end.
unfoldable pub respond : {A : Type 0} → ℕ → Action A → Database → Response
respond success endpoint d =
    let (r, s) = endpoint (open_session d) in
    record { status = status_of_result success r; db = s.committed }

pub data Level : Type 0 where
  info warning error : Level

-- LoggingMiddleware.dispatch: none for a health check.
unfoldable pub access_level : String → ℕ → Option Level
access_level path status =
    if path == "/health"
    then none
    else some (if leb 500 status then error else if leb 400 status then warning else info)
