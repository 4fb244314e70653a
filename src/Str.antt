-- ===== src/Str.antt =====
-- src/hcore_string.c: numbers read from and written to text, sizes, versions and tokens.
pub mod Number
pub mod Print
pub mod Version
pub mod Token
mod Tests
