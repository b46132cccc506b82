-- ===== src/Python/Text.antt =====
-- `str` as the list of its code points: equality, order, `strip` and `lower`.
mod Laws
mod Defs
pub use Laws.*
unfoldable pub use Defs.{
  is_space, lstrip, rstrip, strip, text_eq, text_lt, text_mem, lower, require_text,
}
pub use Defs.{Text, codes, IsClean}
