-- ===== src/Auth.antt =====
-- internal/auth: the two doors.
pub mod Encoding
pub mod Token
pub mod Refusal
pub mod TokenDoor
pub mod BrowserDoor
