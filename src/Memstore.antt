-- ===== src/Memstore.antt =====
-- Package memstore: the in-memory stores. Each store is a map under one mutex, so each method is one
-- step; what a method returns or keeps is a copy, which a value is.
pub mod Users
pub mod Sessions
pub mod Tokens
pub mod Totp
pub mod Recovery
pub mod Passkeys
