-- ===== src/Pattern.antt =====
-- ganymede-pattern-core: the pattern representations, the interpreter and the searches.
pub mod Atom
pub mod Read
pub mod Exec
pub mod Plan
pub mod Fixed
pub mod Vector
pub mod FixedScan
pub mod Compiled
pub mod Search
pub mod Syntax
pub mod Naive
mod Tests
