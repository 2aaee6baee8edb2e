-- ===== src/Workflow/Tests.antt =====
-- Runs of the workflow code, and the theorems at concrete inputs.
pub mod Samples
pub mod Graphs
pub mod Stores
pub mod Passes
pub mod Loops
