-- ===== src/Content/Json/Frozen.antt =====
-- Freezing makes a value immutable at every depth, and thawing returns the JSON value that was frozen.
use eduvijna_aieos_backend.Prelude.{
  ◌≡◌, refl, sym, ap, true, false, ok, Ensures, Ensures-bind, Ensures-ok,
}
use eduvijna_aieos_backend.Content.Json.{
  Value, null, boolean, string, integer, float, mapping, sequence, unsupported, Entries, end, entry,
  Items, nil, cons, text, other, freeze_json_value, freeze_entries, freeze_items, thaw_json_value,
  thaw_entries, thaw_items, IsJson, AreJsonEntries, AreJsonItems, IsFrozen, AreFrozenEntries,
  AreFrozenItems,
}

mutual
  unfolding freeze_json_value

  freeze-Ensures : (v : Value) → Ensures IsFrozen (freeze_json_value v)
  freeze-Ensures null = tt
  freeze-Ensures (boolean b) = tt
  freeze-Ensures (string s) = tt
  freeze-Ensures (integer n) = tt
  freeze-Ensures (float true bits) = refl
  freeze-Ensures (float false bits) = tt
  freeze-Ensures (mapping is_frozen es) =
      Ensures-bind IsFrozen (freeze_entries es) _
        λ fs h. (refl, Ensures-ok AreFrozenEntries _ fs (freeze_entries-Ensures es) h)
  freeze-Ensures (sequence is_frozen is) =
      Ensures-bind IsFrozen (freeze_items is) _
        λ fs h. (refl, Ensures-ok AreFrozenItems _ fs (freeze_items-Ensures is) h)
  freeze-Ensures unsupported = tt

  freeze_entries-Ensures : (es : Entries) → Ensures AreFrozenEntries (freeze_entries es)
  freeze_entries-Ensures end = tt
  freeze_entries-Ensures (entry other v es) = tt
  freeze_entries-Ensures (entry (text k) v es) =
      Ensures-bind AreFrozenEntries (freeze_json_value v) _ λ f h.
        Ensures-bind AreFrozenEntries (freeze_entries es) _ λ fs k. (
          Ensures-ok IsFrozen _ f (freeze-Ensures v) h,
          Ensures-ok AreFrozenEntries _ fs (freeze_entries-Ensures es) k,
        )

  freeze_items-Ensures : (is : Items) → Ensures AreFrozenItems (freeze_items is)
  freeze_items-Ensures nil = tt
  freeze_items-Ensures (cons v is) = Ensures-bind AreFrozenItems (freeze_json_value v) _ λ f h.
      Ensures-bind AreFrozenItems (freeze_items is) _ λ fs k. (
        Ensures-ok IsFrozen _ f (freeze-Ensures v) h,
        Ensures-ok AreFrozenItems _ fs (freeze_items-Ensures is) k,
      )

false-ne-true : false ≡ true → ⊥
false-ne-true h = cc

-- What was frozen is returned as it is by a second freezing.
mutual
  unfolding freeze_json_value

  freeze_of_IsFrozen : (v : Value) → IsFrozen v → freeze_json_value v ≡ ok v
  freeze_of_IsFrozen null h = refl
  freeze_of_IsFrozen (boolean b) h = refl
  freeze_of_IsFrozen (string s) h = refl
  freeze_of_IsFrozen (integer n) h = refl
  freeze_of_IsFrozen (float true bits) h = refl
  freeze_of_IsFrozen (float false bits) h = cc
  freeze_of_IsFrozen (mapping true es) h = rw (freeze_entries_of es h.1) refl
  freeze_of_IsFrozen (mapping false es) h = absurd (false-ne-true h.0)
  freeze_of_IsFrozen (sequence true is) h = rw (freeze_items_of is h.1) refl
  freeze_of_IsFrozen (sequence false is) h = absurd (false-ne-true h.0)
  freeze_of_IsFrozen unsupported h = absurd h

  freeze_entries_of : (es : Entries) → AreFrozenEntries es → freeze_entries es ≡ ok es
  freeze_entries_of end h = refl
  freeze_entries_of (entry other v es) h = absurd h
  freeze_entries_of (entry (text k) v es) h =
      rw (freeze_of_IsFrozen v h.0, freeze_entries_of es h.1) refl

  freeze_items_of : (is : Items) → AreFrozenItems is → freeze_items is ≡ ok is
  freeze_items_of nil h = refl
  freeze_items_of (cons v is) h = rw (freeze_of_IsFrozen v h.0, freeze_items_of is h.1) refl

-- What freezing returns is immutable at every depth, and a second freezing returns the same.
pub freeze_json_value-IsFrozen :
    (v f : Value) → freeze_json_value v ≡ ok f → IsFrozen f × (freeze_json_value f ≡ ok f)
freeze_json_value-IsFrozen v f h =
    let frozen = Ensures-ok IsFrozen _ f (freeze-Ensures v) h in
    (frozen, freeze_of_IsFrozen f frozen)

-- A frozen form of a value that thaws to it.
abbrev Thaws : Value → Type 0
Thaws v = (f : Value) × (freeze_json_value v ≡ ok f) × (thaw_json_value f ≡ v)

abbrev ThawsEntries : Entries → Type 0
ThawsEntries es = (fs : Entries) × (freeze_entries es ≡ ok fs) × (thaw_entries fs ≡ es)

abbrev ThawsItems : Items → Type 0
ThawsItems is = (fs : Items) × (freeze_items is ≡ ok fs) × (thaw_items fs ≡ is)

mutual
  unfolding freeze_json_value thaw_json_value

  freeze-Thaws : (v : Value) → IsJson v → Thaws v
  freeze-Thaws null h = (null, refl, refl)
  freeze-Thaws (boolean b) h = (boolean b, refl, refl)
  freeze-Thaws (string s) h = (string s, refl, refl)
  freeze-Thaws (integer n) h = (integer n, refl, refl)
  freeze-Thaws (float true bits) h = (float true bits, refl, refl)
  freeze-Thaws (float false bits) h = absurd (false-ne-true h)
  freeze-Thaws (mapping false es) h =
      let t = freeze_entries-Thaws es h.1 in (mapping true t.0, rw t.1 refl, ap (mapping false) t.2)
  freeze-Thaws (mapping true es) h = absurd (false-ne-true (sym h.0))
  freeze-Thaws (sequence false is) h =
      let t = freeze_items-Thaws is h.1 in (sequence true t.0, rw t.1 refl, ap (sequence false) t.2)
  freeze-Thaws (sequence true is) h = absurd (false-ne-true (sym h.0))
  freeze-Thaws unsupported h = absurd h

  freeze_entries-Thaws : (es : Entries) → AreJsonEntries es → ThawsEntries es
  freeze_entries-Thaws end h = (end, refl, refl)
  freeze_entries-Thaws (entry other v es) h = absurd h
  freeze_entries-Thaws (entry (text k) v es) h =
      let t = freeze-Thaws v h.0 in
      let ts = freeze_entries-Thaws es h.1 in
      (entry (text k) t.0 ts.0, rw (t.1, ts.1) refl, rw (t.2, ts.2) refl)

  freeze_items-Thaws : (is : Items) → AreJsonItems is → ThawsItems is
  freeze_items-Thaws nil h = (nil, refl, refl)
  freeze_items-Thaws (cons v is) h =
      let t = freeze-Thaws v h.0 in
      let ts = freeze_items-Thaws is h.1 in
      (cons t.0 ts.0, rw (t.1, ts.1) refl, rw (t.2, ts.2) refl)

-- A value that `json` loads is frozen without an exception, and what is frozen thaws to that value.
pub thaw_json_value-freeze_json_value :
    (v : Value) → IsJson v → (f : Value) × (freeze_json_value v ≡ ok f) × (thaw_json_value f ≡ v)
thaw_json_value-freeze_json_value v h = freeze-Thaws v h
