-- ===== src/Api.antt =====
-- packages/core/src/api: the parts of the API client with a rule of their own.
pub mod Clock
mod Examples
