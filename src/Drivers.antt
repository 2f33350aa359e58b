-- ===== src/Drivers.antt =====
-- Drivers/: the keyboard with its shell, the network card, the clock, the mouse, the disk, and the list of drivers.
pub mod Keyboard
pub mod Card
pub mod Clock
pub mod Manager
pub mod Mouse
pub mod Disk
mod Tests
mod DeviceTests
