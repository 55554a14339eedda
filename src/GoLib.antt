-- ===== src/GoLib.antt =====
-- The parts of Go's standard library that the program computes with: strings, strconv, encoding/hex
-- and the wrap-around of int64.
pub mod Strings
pub mod Int64
pub mod Strconv
pub mod Hex
