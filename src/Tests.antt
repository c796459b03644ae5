-- ===== src/Tests.antt =====
-- The theorems at concrete inputs, and runs of the definitions.
mod Pipeline
mod Planning
mod Tracking
mod Curve
mod Ghosting
mod Migrating
mod Packing
mod Storage
mod Inserting
mod Symbols
mod Cells
mod Adapting
mod Balancing
mod Analyzing
mod Devices
