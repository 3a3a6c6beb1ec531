-- ===== src/Go.antt =====
-- What the program uses of Go's integers and of the package `strconv`.
pub mod Words
pub mod Decimal
