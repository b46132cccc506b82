-- ===== src/Python/Scalars.antt =====
-- Integers, `uuid.UUID` and `datetime.datetime`, as far as the domains look into them.
use eduvijna_aieos_backend.Prelude.{
  ℕ, ◌/◌, ◌%◌, ◌^◌, ◌≡◌, Bool, true, Option, none, some, ltb, ◌==◌, if◌then◌else◌, Result, guard,
}
use eduvijna_aieos_backend.Python.Text.{Text}

-- `int`: `negsuc n` is -(n + 1).
pub data ℤ : Type 0 where
  pos : ℕ → ℤ
  negsuc : ℕ → ℤ

-- `uuid.UUID`, by its 128-bit number `UUID.int`.
abbrev pub Uuid : Type 0
Uuid = ℕ

-- `UUID.version`: the four bits of the version field, present for the RFC 4122 variant only.
unfoldable pub version : Uuid → Option ℕ
version u = if u / 2 ^ 62 % 4 == 2 then some (u / 2 ^ 76 % 16) else none

-- `datetime`: whether `tzinfo` and `utcoffset()` are present, and the instant in microseconds.
-- Aware values compare by their instants.
pub record Datetime : Type 0 where
  pub is_aware : Bool
  pub instant : ℕ

abbrev pub IsAware : Datetime → Type 0
IsAware t = t.is_aware ≡ true

-- `a < b` of two aware datetimes.
abbrev pub earlier : Datetime → Datetime → Bool
earlier a b = ltb a.instant b.instant

-- `_require_aware`, with the domain's exception.
abbrev pub require_aware {ℓ} : {E : Type ℓ} → E → Datetime → Result E (Unit {0})
require_aware e t = guard t.is_aware e

-- `require_aware` of an optional field, skipped at `None`.
abbrev pub require_optional_aware {ℓ} : {E : Type ℓ} → E → Option Datetime → Result E (Unit {0})
require_optional_aware e none = guard true e
require_optional_aware e (some t) = require_aware e t

-- A value of which the program asks no more than whether it is a `str` or a `bool`.
pub data Value : Type 0 where
  text : Text → Value
  boolean : Bool → Value
  other : Value
