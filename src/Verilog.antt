-- ===== src/Verilog.antt =====
-- verilog2hif: the routines that turn Verilog tokens into HIF values and actions.
pub mod Binary
pub mod Numbers
pub mod Sized
pub mod Timescale
pub mod Actions
pub mod Defaults
pub mod CommandLine
pub mod Initial
pub mod Cones
pub mod Constants
pub mod Ams
pub mod Processes
pub mod Concat
pub mod ModuleItems
mod Tests
