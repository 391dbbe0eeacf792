-- ===== src/Core.antt =====
-- pkg/core: error values, dynamic values and the state envelope.
pub mod Errors
pub mod Attempt
pub mod Value
pub mod State
