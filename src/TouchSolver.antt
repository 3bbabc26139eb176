-- ===== src/TouchSolver.antt =====
-- The touch solver of EGoTouchService/Engine/TouchSolver behind the peaks: zones, edges and sizes.
pub mod Closing
pub mod Edge
pub mod Size
pub mod Zone
mod Tests
