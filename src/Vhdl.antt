-- ===== src/Vhdl.antt =====
-- vhdl2hif: the routines that turn VHDL tokens into HIF values and types.
pub mod Bits
pub mod Text
pub mod Literals
pub mod Types
pub mod Operators
pub mod Expressions
pub mod Duplicates
pub mod Ranges
pub mod Libraries
mod Tests
