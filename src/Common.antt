-- ===== src/Common.antt =====
-- src/common: the data models that every part shares, and the arguments of the programs.
pub mod Buffers
pub mod Arguments
