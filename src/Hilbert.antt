-- ===== src/Hilbert.antt =====
-- The Hilbert codec and the cell coordinates (src/core/hilbert, include/fluidloom/core/hilbert).
pub mod Codec
pub mod Digits
pub mod Encode
pub mod Shifts
pub mod RoundTrip
pub mod Bits
pub mod Onto
pub mod Coord
