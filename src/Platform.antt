-- ===== src/Platform.antt =====
-- What the backend runs on and does not implement: the clock's values, the database and Redis as
-- interfaces with the laws that the code relies on, and the values the standard library computes.
pub mod Posix
pub mod Time
pub mod Python
pub mod Redis
pub mod Jwt
pub mod Asgi
pub mod Resources
pub mod Memory
