-- ===== src/Scan.antt =====
-- ganymede-scan/src/lib.rs: bytes assembled from foreign memory, and the scanner over ranges.
pub mod Foreign
pub mod Assembly
pub mod Strings
pub mod Scanner
pub mod Matches
pub mod Copies
pub mod Windows
pub mod Report
pub mod Naive
mod Tests
