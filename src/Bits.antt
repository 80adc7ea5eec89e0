-- ===== src/Bits.antt =====
-- The binary digits of a number, and what C's bit operations do to each of them.
mod Step
mod Digit
mod Word
mod Field
mod Join
unfoldable pub use Digit.*
pub use Word.*
pub use Field.*
pub use Join.*
