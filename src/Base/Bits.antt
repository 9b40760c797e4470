-- ===== src/Base/Bits.antt =====
-- Laws of `&`, `|` and `^` at variables; the libraries have them at numerals.
mod Digits
mod Fields
mod Pointwise
mod OneBit
pub use Digits.*
pub use Fields.*
pub use Pointwise.*
pub use OneBit.*
