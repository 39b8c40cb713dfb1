-- ===== src/Cmd.antt =====
-- The programs of `src/cmd`.
pub mod Cleanup
pub mod Run
pub mod Tc
pub mod Throttle
