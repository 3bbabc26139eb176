-- ===== src/Preprocessing.antt =====
-- The image filters of EGoTouchService/Engine/Preprocessing, on the matrix of `int16`.
-- A cell is a signed value within 16 bits; what the code converts to `int16` wraps.
pub mod Parser
pub mod Cmf
pub mod Gaussian
pub mod Iir
pub mod Conditioning
mod Tests
