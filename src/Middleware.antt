-- ===== src/Middleware.antt =====
-- Middlewares of runnables.
pub mod Runnables
pub mod Budget
pub mod Limits
pub mod Consuming
pub mod Retry
pub mod Retrying
pub mod Auth
