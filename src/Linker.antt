-- ===== src/Linker.antt =====
-- ganymede-linker-gnu: the retries of a snapshot of the linker's state.
mod Tests
pub mod Retry
