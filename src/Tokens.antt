-- ===== src/Tokens.antt =====
-- packages/core/src/edge: the session tokens of a wallet, from their stock to the exit that admits one.
pub mod Store
pub mod Manager
pub mod Walk
mod Examples
