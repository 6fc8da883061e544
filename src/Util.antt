-- ===== src/Util.antt =====
-- src/util: the generator of pseudo random numbers and the identifiers made from it.
pub mod Random
pub mod Uuid
pub mod Logger
