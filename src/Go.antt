-- ===== src/Go.antt =====
-- What the program uses of Go's standard library.
pub mod Strconv
pub mod Strings
pub mod Sort
pub mod Json
