-- ===== src/Content/Json.antt =====
-- version.py: the values of a payload, which are frozen when a version is made and thawed when it is
-- read.
pub mod Frozen
use eduvijna_aieos_backend.Prelude.{ℕ, ◌≡◌, Bool, true, false, List, [], ◌∷◌, ok, err, ◌>>=◌}
use eduvijna_aieos_backend.Python.Text.{Text}
use eduvijna_aieos_backend.Python.Scalars.{ℤ}
use eduvijna_aieos_backend.Content.Vocabulary.{ContentResult, invalid_payload}

-- The key of a `dict`: a `str` or not.
pub data Key : Type 0 where
  text : Text → Key
  other : Key

-- A mapping is a `dict` or a `MappingProxyType`, a sequence is a `list` or a `tuple`: the second is the
-- immutable one. A float is its bits and whether it is finite. A mapping lists its items in order.
mutual
  pub data Value : Type 0 where
    null : Value
    boolean : Bool → Value
    string : Text → Value
    integer : ℤ → Value
    float : (is_finite : Bool) → ℕ → Value
    mapping : (is_frozen : Bool) → Entries → Value
    sequence : (is_frozen : Bool) → Items → Value
    unsupported : Value

  pub data Entries : Type 0 where
    end : Entries
    entry : Key → Value → Entries → Entries

  pub data Items : Type 0 where
    nil : Items
    cons : Value → Items → Items

unfoldable mutual
  pub freeze_json_value : Value → ContentResult Value
  freeze_json_value null = ok null
  freeze_json_value (boolean b) = ok (boolean b)
  freeze_json_value (string s) = ok (string s)
  freeze_json_value (integer n) = ok (integer n)
  freeze_json_value (float true bits) = ok (float true bits)
  freeze_json_value (float false bits) = err invalid_payload
  freeze_json_value (mapping is_frozen es) = freeze_entries es >>= λ fs. ok (mapping true fs)
  freeze_json_value (sequence is_frozen is) = freeze_items is >>= λ fs. ok (sequence true fs)
  freeze_json_value unsupported = err invalid_payload

  pub freeze_entries : Entries → ContentResult Entries
  freeze_entries end = ok end
  freeze_entries (entry other v es) = err invalid_payload
  freeze_entries (entry (text k) v es) =
      freeze_json_value v >>= λ f. freeze_entries es >>= λ fs. ok (entry (text k) f fs)

  pub freeze_items : Items → ContentResult Items
  freeze_items nil = ok nil
  freeze_items (cons v is) = freeze_json_value v >>= λ f. freeze_items is >>= λ fs. ok (cons f fs)

-- A `list` that is met is returned as it is.
unfoldable mutual
  pub thaw_json_value : Value → Value
  thaw_json_value (mapping is_frozen es) = mapping false (thaw_entries es)
  thaw_json_value (sequence true is) = sequence false (thaw_items is)
  thaw_json_value (sequence false is) = sequence false is
  thaw_json_value null = null
  thaw_json_value (boolean b) = boolean b
  thaw_json_value (string s) = string s
  thaw_json_value (integer n) = integer n
  thaw_json_value (float is_finite bits) = float is_finite bits
  thaw_json_value unsupported = unsupported

  pub thaw_entries : Entries → Entries
  thaw_entries end = end
  thaw_entries (entry k v es) = entry k (thaw_json_value v) (thaw_entries es)

  pub thaw_items : Items → Items
  thaw_items nil = nil
  thaw_items (cons v is) = cons (thaw_json_value v) (thaw_items is)

abbrev pub require_mapping : Value → ContentResult Value
require_mapping (mapping is_frozen es) = ok (mapping is_frozen es)
require_mapping _ = err invalid_payload

unfoldable pub freeze_payload_mapping : Value → ContentResult Value
unfolding freeze_json_value
freeze_payload_mapping body = freeze_json_value body >>= require_mapping

-- What `json` loads: every mapping a `dict` with text keys, every sequence a `list`, floats finite.
abbrev mutual
  pub IsJson : Value → Type 0
  IsJson (mapping is_frozen es) = (is_frozen ≡ false) × AreJsonEntries es
  IsJson (sequence is_frozen is) = (is_frozen ≡ false) × AreJsonItems is
  IsJson (float is_finite bits) = is_finite ≡ true
  IsJson unsupported = ⊥
  IsJson _ = Unit

  pub AreJsonEntries : Entries → Type 0
  AreJsonEntries end = Unit
  AreJsonEntries (entry other v es) = ⊥
  AreJsonEntries (entry (text k) v es) = IsJson v × AreJsonEntries es

  pub AreJsonItems : Items → Type 0
  AreJsonItems nil = Unit
  AreJsonItems (cons v is) = IsJson v × AreJsonItems is

-- What `freeze_json_value` returns: nothing of it can be changed in place.
abbrev mutual
  pub IsFrozen : Value → Type 0
  IsFrozen (mapping is_frozen es) = (is_frozen ≡ true) × AreFrozenEntries es
  IsFrozen (sequence is_frozen is) = (is_frozen ≡ true) × AreFrozenItems is
  IsFrozen (float is_finite bits) = is_finite ≡ true
  IsFrozen unsupported = ⊥
  IsFrozen _ = Unit

  pub AreFrozenEntries : Entries → Type 0
  AreFrozenEntries end = Unit
  AreFrozenEntries (entry other v es) = ⊥
  AreFrozenEntries (entry (text k) v es) = IsFrozen v × AreFrozenEntries es

  pub AreFrozenItems : Items → Type 0
  AreFrozenItems nil = Unit
  AreFrozenItems (cons v is) = IsFrozen v × AreFrozenItems is

-- A `dict` display with text keys.
abbrev pub dict : List (Text × Value) → Value
dict items = mapping false (entries items)
  where
    entries : List (Text × Value) → Entries
    entries [] = end
    entries (item ∷ items) = entry (text item.0) item.1 (entries items)
