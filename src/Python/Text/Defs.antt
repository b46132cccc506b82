-- ===== src/Python/Text/Defs.antt =====
-- `str` as the list of its code points. `len` is then `length`.
use Prim.Native.Char.{code}
use eduvijna_aieos_backend.Prelude.{
  ℕ, ◌+◌, ◌≤◌, String, ◌≡◌, ◌≢◌, Bool, true, false, ◌&&◌, ◌||◌, List, [], ◌∷◌, map, ltb, leb, ◌==◌,
  if◌then◌else◌, length, Result, ok, err,
}

abbrev pub Text : Type 0
Text = List ℕ

-- The code points of a literal.
abbrev pub codes : String → Text
codes String.[] = []
codes (String.◌∷◌ c s) = code c ∷ codes s

-- `str.isspace` of one character, which is what `str.strip()` removes.
unfoldable pub is_space : ℕ → Bool
is_space c =
    (leb 9 c && leb c 13)
    || (leb 28 c && leb c 32)
    || c == 0x85
    || c == 0xA0
    || c == 0x1680
    || (leb 0x2000 c && leb c 0x200A)
    || c == 0x2028
    || c == 0x2029
    || c == 0x202F
    || c == 0x205F
    || c == 0x3000

unfoldable pub lstrip : Text → Text
lstrip [] = []
lstrip (c ∷ s) = let rest = lstrip s in if is_space c then rest else c ∷ s

abbrev pub rstrip_cons : ℕ → Text → Text
rstrip_cons c [] = if is_space c then [] else c ∷ []
rstrip_cons c (d ∷ s) = c ∷ d ∷ s

unfoldable pub rstrip : Text → Text
rstrip [] = []
rstrip (c ∷ s) = rstrip_cons c (rstrip s)

unfoldable pub strip : Text → Text
unfolding lstrip rstrip is_space
strip s = rstrip (lstrip s)

unfoldable pub text_eq : Text → Text → Bool
text_eq [] [] = true
text_eq [] (d ∷ t) = false
text_eq (c ∷ s) [] = false
text_eq (c ∷ s) (d ∷ t) = c == d && text_eq s t

-- `s < t`: lexicographic, by code point.
unfoldable pub text_lt : Text → Text → Bool
text_lt [] [] = false
text_lt [] (d ∷ t) = true
text_lt (c ∷ s) [] = false
text_lt (c ∷ s) (d ∷ t) = ltb c d || (c == d && text_lt s t)

-- `s in texts`
unfoldable pub text_mem : Text → List Text → Bool
text_mem s [] = false
text_mem s (t ∷ ts) = text_eq s t || text_mem s ts

-- `str.lower()` on the ASCII letters; other characters are left as they are. The program only
-- compares the result with "true" and "false", into whose letters no other character lowers.
unfoldable pub lower : Text → Text
lower s = map (λ c. if leb b'A' c && leb c b'Z' then c + 32 else c) s

-- A text that `_require_text` returns: stripped, non-empty and within the limit.
pub record IsClean (max_length : ℕ) (s : Text) : Type 0 where
  pub stripped : strip s ≡ s
  pub non_empty : s ≢ []
  pub bounded : length s ≤ max_length

-- The `_require_text` of the domains, with the domain's exception: each module of the program has
-- its own copy of it.
abbrev pub require_stripped {ℓ} : {E : Type ℓ} → E → ℕ → Text → Result E Text
require_stripped e max_length [] = err e
require_stripped e max_length (c ∷ s) =
    if ltb max_length (length (c ∷ s)) then err e else ok (c ∷ s)

unfoldable pub require_text {ℓ} : {E : Type ℓ} → E → ℕ → Text → Result E Text
require_text e max_length value = require_stripped e max_length (strip value)
