-- ===== src/Text.antt =====
-- source/string and source/util: numbers as text, C strings, and byte orders. A character is its code
-- (`char` is unsigned on this machine), a buffer is the list of its bytes, and what is written past its
-- end is lost. A C string is the list of the characters before its first zero.
pub mod Number
pub mod Strings
pub mod Print
