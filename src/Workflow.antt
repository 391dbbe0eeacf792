-- ===== src/Workflow.antt =====
-- pkg/workflow: declarative workflows.
pub mod Spec
pub mod Parsing
pub mod Registry
pub mod Compiler
pub mod Assembly
pub mod Compiled
