-- ===== src/Vault.antt =====
-- The key vault: internal/security/crypto/crypto.go and internal/security/masterkey/masterkey.go.
pub mod Cipher
pub mod Store
pub mod Seals
pub mod Opens
pub mod Keys
pub mod Rotation
pub mod Torn
pub mod Examples
