-- ===== src/Python.antt =====
-- What the package uses of Python itself: texts, digits, hexadecimal, the bytes of an integer and
-- statements with effects.
-- A `str` is the list of its code points and a `bytes` object the list of its bytes.
pub mod Text
pub mod Digits
pub mod Hex
pub mod Bytes
pub mod Decimal
pub mod Fraction
pub mod Effects
pub mod IntText
pub mod DecimalText
