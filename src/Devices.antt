-- ===== src/Devices.antt =====
-- The device backends (src/core/backend, include/fluidloom/core/backend).
pub mod Mock
