-- ===== src/Agent.antt =====
-- Agents: the compiler of agent definitions and the loop that it builds.
pub mod State
pub mod Calls
pub mod Nodes
pub mod Loop
pub mod Turns
pub mod Responses
pub mod Limit
pub mod Vendors
pub mod Delegation
pub mod Cycles
pub mod Paths
pub mod Depth
pub mod Acyclic
pub mod Complete
pub mod Exact
pub mod Counting
pub mod Draining
pub mod Acceptance
pub mod Verdict
pub mod Kahn
pub mod Sorting
pub mod Resolve
pub mod Reached
pub mod Deps
pub mod Invariant
pub mod Resolved
pub mod Linking
pub mod Compile
pub mod Compiled
