-- ===== src/Fields.antt =====
-- The fields of the engine (src/core/fields, include/fluidloom/core/fields).
pub mod Descriptor
pub mod Manager
pub mod Registry
