-- ===== src/Eip.antt =====
-- pkg/graph/router/eip: routers modelled on the enterprise integration patterns.
pub mod Values
pub mod Routers
pub mod Walks
pub mod Aggregation
