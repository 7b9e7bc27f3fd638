-- ===== src/Go.antt =====
-- What the program uses of Go's standard library.
pub mod Decimal
pub mod ParseInt
pub mod Url
pub mod Text
pub mod Netip
pub mod Clean
