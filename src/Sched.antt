-- ===== src/Sched.antt =====
-- tp2/src: a scheduler with a ready queue of four levels.
pub mod Process
pub mod Level
pub mod Queue
pub mod Worker
pub mod Os
pub mod Micro
pub mod Report
pub mod Turn
