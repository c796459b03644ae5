-- ===== src/Adaptation.antt =====
-- The mesh adaptation (src/adaptation, include/fluidloom/adaptation, src/core/hilbert/HilbertCodec3D.cpp).
pub mod Curve
pub mod Cell
pub mod Probing
pub mod Balance
pub mod Buffers
pub mod Split
pub mod Scan
pub mod Rebuild
pub mod Merge
pub mod Engine
