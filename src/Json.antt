-- ===== src/Json.antt =====
-- The JSON layer of src/json.hpp and src/json.cpp.
pub mod Reader
pub mod Utf8
pub mod Strings
pub mod Numbers
pub mod Writer
pub mod Doubles
