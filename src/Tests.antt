-- ===== src/Tests.antt =====
-- Concrete inputs: the theorems applied to them, and vectors of tests/test_signer.py.
pub mod Data
pub mod Serializers
pub mod Encoding
pub mod Wallet
pub mod Memory
pub mod Http
pub mod Decimals
pub mod Responses
pub mod Keys
pub mod Sending
pub mod Contracts
