-- ===== src/Signer.antt =====
-- crypto-signer/src: what is signed. Keys and signatures are the business of packages and of Vault.
pub mod C14n
