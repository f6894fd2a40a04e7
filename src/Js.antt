-- ===== src/Js.antt =====
-- What the program uses of the language: texts, decimal numerals, URI encoding, numbers.
pub mod Text
pub mod Uri
pub mod Decimal
pub mod Number
