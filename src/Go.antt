-- ===== src/Go.antt =====
-- What the program uses of Go's standard library: decimal printing and `fmt.Sscanf`, `strings.Split`,
-- `encoding/base64`, string order and `sort.Slice`.
pub mod Decimal
pub mod Scan
pub mod Split
pub mod Base64
pub mod Hex
pub mod Order
pub mod Utf8
pub mod Json
mod Tests
