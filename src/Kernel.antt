-- ===== src/Kernel.antt =====
-- kernel/: the number texts, the descriptor table, the console and the round-robin task manager.
pub mod IntText
pub mod Gdt
pub mod Console
pub mod Tasks
mod Tests
mod ConsoleTests
