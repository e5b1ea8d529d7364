-- ===== src/Session.antt =====
-- Login sessions: the refresh tokens of internal/domain/user/refresh_token.go, their table, and
-- internal/application/user/refresh.go, which exchanges a refresh token for its successor.
pub mod Tokens
pub mod Refresh
pub mod Ceilings
pub mod Replays
mod Examples
