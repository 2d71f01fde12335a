-- ===== src/Bits.antt =====
-- Laws of `&` and `|` at variables, which the native operations do not give.
mod Step
mod Fields
mod Digits
mod Laws
pub mod Bounds
pub use Fields.*
pub use Laws.*
