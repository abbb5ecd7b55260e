-- ===== src/Assembly.antt =====
-- The assembler for X64: UEFIpp/Source/Architecture/X64/Assembly and the instructions of
-- UEFIpp/Include/UEFIpp/Architecture/X64/Instruction that it is given.
pub mod Instructions
pub mod Programs
pub mod Emitting
pub mod Layout
