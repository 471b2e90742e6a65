-- ===== src/Text.antt =====
-- The text functions of src/common/strutil.cpp, on bytes.
pub mod Ascii
pub mod Hex
pub mod Trim
pub mod Url
pub mod Base64
pub mod Number
pub mod Path
pub mod Split
pub mod Utf8
pub mod Escape
pub mod FileName
mod Tests
