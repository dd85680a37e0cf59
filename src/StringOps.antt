-- ===== src/StringOps.antt =====
-- include/mergebot/utils/stringop.h, a child for each family of its functions.
pub mod Hex
pub mod Deflate
pub mod Split
pub mod Macro
mod Tests
