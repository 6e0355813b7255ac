-- ===== src/Sessions.antt =====
-- controller/auth.py: passwords and signed session tokens.
pub mod Encoding
pub mod Passwords
pub mod Tokens
pub mod Signed
pub mod Returning
