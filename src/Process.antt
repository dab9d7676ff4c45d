-- ===== src/Process.antt =====
-- ganymede-process: the address space of a process, as the kernel reported it.
mod Tests
pub mod Snapshot
