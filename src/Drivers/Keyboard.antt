-- ===== src/Drivers/Keyboard.antt =====
-- The keyboard driver, Drivers/Keyboard.cpp, and the shell in it.
pub mod Keys
pub mod State
pub mod Options
pub mod Commands
pub mod Handler
pub mod Letters
pub mod Typing
pub mod Lines
pub mod Products
