-- ===== src/Encoding.antt =====
-- The text encodings: source/hex.cpp, source/base64.cpp and source/url.cpp.
pub mod Hex
pub mod Base64
pub mod Url
