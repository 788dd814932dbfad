-- ===== src/Workflow.antt =====
-- internal/workflow: action definitions, their expressions, and their validation.
pub mod Definition
pub mod Names
pub mod Validate
pub mod Parse
pub mod Cel
