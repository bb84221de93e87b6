-- ===== src/Handlers.antt =====
-- internal/handlers: the two transports over the services.
pub mod Grpc
pub mod Rest
pub mod Health
pub mod Privacy
pub mod Status
pub mod Transports
pub mod Claims
