-- ===== src/Auth.antt =====
-- app/modules/auth: users, tokens and API keys.
pub mod Entities
pub mod Tokens
pub mod Repositories
pub mod Service
pub mod ApiKeys
pub mod Hasher
pub mod Routes
pub mod Laws
