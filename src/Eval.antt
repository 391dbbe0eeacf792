-- ===== src/Eval.antt =====
-- pkg/eval: the evaluation of a function on the examples of a dataset.
mod Runner
pub mod Schedules
unfoldable pub use Runner.*
