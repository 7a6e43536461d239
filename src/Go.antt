-- ===== src/Go.antt =====
-- What the program uses of the Go language and its standard library.
pub mod Text
pub mod Outcome
pub mod Dict
pub mod Word
pub mod Hex
pub mod Chan
pub mod Float
pub mod Json
pub mod Strconv
