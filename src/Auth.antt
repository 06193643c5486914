-- ===== src/Auth.antt =====
-- src/auth: the tokens that keep a client signed in.
pub mod RefreshTokens
