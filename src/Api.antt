-- ===== src/Api.antt =====
-- pkg/api: the handlers of the HTTP interface.
pub mod Replies
pub mod Workflows
pub mod Lifecycle
pub mod Prompts
pub mod Runs
