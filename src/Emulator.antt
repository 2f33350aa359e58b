-- ===== src/Emulator.antt =====
-- The JD1618 emulator: loaders/JD1618.cpp and loaders/JD1618.h.
-- `State` is `CPU1618::CPU` and its RAM; `Decode` the opcodes and their clock costs; `Move`, `Jump`,
-- `Arith` and `Compare` the cases of the big `switch`; `Step` one round of `ExecuteFromMemory` and
-- `Run` its loop; `Load` is `LoadPRG`. The others are about
-- these: `Valid` and `Safety` the widths of registers and the bounds of memory, `Clock` and `Halting`
-- the cycle counter that ends the loop, `Registers` the register instructions, `Loading` the loader.
pub mod State
pub mod Decode
pub mod Move
pub mod Jump
pub mod Arith
pub mod Compare
pub mod Step
pub mod Run
pub mod Load
pub mod Valid
pub mod Safety
pub mod Clock
pub mod Halting
pub mod Registers
pub mod Loading
mod Tests
