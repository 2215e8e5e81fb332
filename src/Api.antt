-- ===== src/Api.antt =====
-- The Agent API around its routes: apps/api/limits.py, apps/api/auth.py, apps/api/middleware.py and
-- apps/api/tasks.py.
pub mod Address
pub mod Throttle
pub mod Auth
pub mod Admitted
pub mod Idempotency
pub mod Finds
pub mod Replayed
pub mod Once
mod Examples
