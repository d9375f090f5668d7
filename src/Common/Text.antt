-- ===== src/Common/Text.antt =====
-- The methods of JavaScript's `String` that the program calls. A text is a list of characters.
mod Trim
mod Split
mod Infix
unfoldable pub use Trim.*
unfoldable pub use Split.*
pub use Infix.*
