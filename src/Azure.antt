-- ===== src/Azure.antt =====
-- internal/azure: the reader of Key Vault, the queue source, and the redaction of URLs.
pub mod KeyVault
pub mod Redact
pub mod Queue
