-- ===== src/Cipher.antt =====
-- The stream cipher of the library.
pub mod Chacha
pub mod Poly1305
pub mod Aead
