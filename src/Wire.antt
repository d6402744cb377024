-- ===== src/Wire.antt =====
-- The byte formats of packages/core/src/edge.
pub mod Result
pub mod Varint
pub mod Number
pub mod Cursor
pub mod Frame
pub mod FrameV2
pub mod Control
mod Examples
