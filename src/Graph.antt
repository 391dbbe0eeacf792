-- ===== src/Graph.antt =====
-- pkg/graph: directed graphs of nodes, their executor, routers and sub-agents.
mod Defs
pub mod Runs
pub mod Refinement
unfoldable pub use Defs.*
