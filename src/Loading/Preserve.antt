-- ===== src/Loading/Preserve.antt =====
-- Every operation keeps the invariant of `Loading/Invariant.antt`.
pub mod Starting
pub mod Settling
pub mod Quieting
pub mod Resuming
pub mod Stale
pub mod Handling
