-- ===== src/Halo.antt =====
-- The halo exchange (src/halo, include/fluidloom/halo).
pub mod Layout
pub mod Ghosts
