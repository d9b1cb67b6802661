-- ===== src/Parse.antt =====
-- Python's parsing of texts: `str.split`, `str.partition`, `int`, `bytes.fromhex` and `Decimal`.
pub mod Splits
pub mod Numbers
pub mod Hex
pub mod Json
