-- ===== src/Store.antt =====
-- The stores of versioned specs.
pub mod Entries
pub mod Versioned
pub mod Invariant
pub mod Preservation
pub mod Reaches
pub mod Activation
pub mod Creation
pub mod Workflows
pub mod Skills
pub mod Agents
pub mod Listing
