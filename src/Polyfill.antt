-- ===== src/Polyfill.antt =====
-- client/src/lib/crypto/webCryptoPolyfill.ts: the cryptography in plain JavaScript that stands in
-- for Web Crypto where the page is not served over HTTPS. Typed arrays are lists of numbers, and a
-- 32-bit word is its unsigned value.
pub mod Bits
pub mod Sha256
pub mod Kdf
pub mod Hkdf
pub mod Aes
pub mod Gcm
pub mod Tamper
mod Tests
