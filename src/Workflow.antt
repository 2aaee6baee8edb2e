-- ===== src/Workflow.antt =====
-- Workflow definitions, runs and the engine: packages/contracts/src/workflow.ts,
-- packages/shared/src/workflow.ts and apps/desktop/src/main/workflows.
pub mod Types
pub mod Graph
pub mod Validate
pub mod Repository
pub mod Store
pub mod Engine
pub mod Iterate
pub mod Tests
