-- ===== src/Text.antt =====
-- What the program uses of Go's packages strings and strconv, over byte strings. Functions that
-- Go defines on Unicode text are given on ASCII text.
pub mod Case
pub mod Space
pub mod Split
pub mod Find
pub mod Decimal
