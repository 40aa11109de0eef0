-- ===== src/Verilog/Cones.antt =====
-- The logic cones of src/verilog2hif/FixDescription_3.cpp. A declaration and a reference to one are
-- known by the addresses of their nodes, and a set of nodes lists them in the order of a visit.
mod Tests
pub mod Tree
pub mod Info
pub mod Graph
pub mod Sensitivities
pub mod Sources
