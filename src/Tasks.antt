-- ===== src/Tasks.antt =====
-- kernel/src/tasks: tasks, the scheduler, context switches and system calls.
pub mod Task
pub mod Load
pub mod Start
pub mod Scheduler
pub mod Asm
pub mod Switch
pub mod Syscall
mod Tests
