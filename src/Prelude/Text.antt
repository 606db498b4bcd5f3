-- ===== src/Prelude/Text.antt =====
-- Go strings: a Go string is held as a native text, and its runes are the text's characters.
pub use text.Mathlib.Text.{◌==◌ as str_eq}
pub use text.Mathlib.TextEquality.{eq_iff}
pub use Prim.Native.Char.{Char, code}
