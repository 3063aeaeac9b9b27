-- ===== src/Proc64.antt =====
-- The processes of the x86-64 kernel, src/proc64.c: the process table, the user window, fork, execve,
-- waitpid and exit, the round-robin scheduler, and the shell's jobs.
pub mod State
pub mod Table
pub mod Window
pub mod Wait
pub mod Schedule
pub mod Syscalls
pub mod Jobs
pub mod Shell
pub mod Isolation
pub mod Preserve
pub mod PreserveCalls
pub mod PreserveShell
pub mod System
pub mod RoundRobin
pub mod Reaping
mod Tests
