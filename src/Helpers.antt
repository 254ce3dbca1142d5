-- ===== src/Helpers.antt =====
-- zp-relayer/utils/helpers.ts: transaction types, prefixes of memos, numbers in hexadecimal, packed
-- signatures, memos with their prefix, the denominator of token amounts.
pub mod TxTypes
pub mod Hex
pub mod Denominator
pub mod Signature
