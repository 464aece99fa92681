-- ===== src/Vault.antt =====
-- The vault: pkg/vault/infisical.
pub mod Crypto
pub mod Secrets
pub mod Handlers
mod Tests
