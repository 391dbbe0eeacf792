-- ===== src/Tests.antt =====
-- Runs of the code and uses of the theorems at concrete inputs.
pub mod Stores
pub mod Graphs
pub mod Workflows
pub mod Routers
pub mod Limits
pub mod Agents
pub mod Providers
pub mod AgentRuns
pub mod AgentGraphs
pub mod Prompts
pub mod Registries
pub mod Vendors
pub mod Retries
pub mod Interfaces
