-- ===== src/Content/Payload/Integrity.antt =====
-- A payload that is made of a JSON object reads back as that object, and its hash is that of the
-- canonical text of the object.
use mathlib.Core.Path.{subst}
use eduvijna_aieos_backend.Prelude.{
  first_returned, ok-injective, ◌≡◌, refl, Bool, true, Option, some, ◌==◌, length, ok,
}
use eduvijna_aieos_backend.Python.Text.{Text, text_eq_refl}
use eduvijna_aieos_backend.Content.Json.{
  Value, mapping, Entries, IsJson, IsFrozen, freeze_json_value, freeze_entries,
  freeze_payload_mapping, thaw_json_value, require_mapping,
}
use eduvijna_aieos_backend.Content.Json.Frozen.{
  freeze_json_value-IsFrozen, thaw_json_value-freeze_json_value,
}
use eduvijna_aieos_backend.Content.Payload.{
  ContentPayload, all_hex, payload_sha256, canonical_payload_json, construct, from_mapping,
}

freeze-mapping :
    (is_frozen : Bool) (es : Entries) (f : Value)
    → freeze_json_value (mapping is_frozen es) ≡ ok f
    → require_mapping f ≡ ok f
unfolding freeze_json_value
freeze-mapping is_frozen es f h =
    let t = first_returned (freeze_entries es) _ h in
    subst (λ f. require_mapping f ≡ ok f) (ok-injective _ _ t.2) refl

module _ (dumps : Value → Option Text) (sha256_hex : Text → Text) where
  -- The payload that is made, and what it is.
  pub record IsOf (body : Value) (canonical : Text) (p : ContentPayload) : Type 0 where
    pub frozen : IsFrozen p.body
    pub thawed : thaw_json_value p.body ≡ body
    pub hashed : p.sha256 ≡ sha256_hex canonical
    pub accepted_again : construct dumps sha256_hex p.body p.sha256 ≡ ok p

  made :
      (is_frozen : Bool) (es : Entries) (canonical : Text) (f : Value)
      → dumps (mapping is_frozen es) ≡ some canonical
      → (length (sha256_hex canonical) == 64) ≡ true
      → all_hex (sha256_hex canonical) ≡ true
      → freeze_json_value (mapping is_frozen es) ≡ ok f
      → freeze_json_value f ≡ ok f
      → require_mapping f ≡ ok f
      → thaw_json_value f ≡ mapping is_frozen es
      → (from_mapping dumps sha256_hex (mapping is_frozen es)
          ≡ ok (record { body = f; sha256 = sha256_hex canonical }))
        × (construct dumps sha256_hex f (sha256_hex canonical)
            ≡ ok (record { body = f; sha256 = sha256_hex canonical }))
  unfolding from_mapping freeze_payload_mapping canonical_payload_json payload_sha256 construct
  made is_frozen es canonical f d l x z i m t = (
    simp (z, m, t, d, l, x, m, i, text_eq_refl (sha256_hex canonical)),
    simp (m, i, t, d, l, x, text_eq_refl (sha256_hex canonical)),
  )

  -- A payload is made of every JSON object for which `json.dumps` returns a text of which the digest has
  -- 64 lowercase hexadecimal digits. It is immutable, thaws to the object, has the digest as its hash,
  -- and its constructor, given its body and its hash, returns it unchanged.
  pub from_mapping-IsOf :
      (is_frozen : Bool) (es : Entries) (canonical : Text)
      → IsJson (mapping is_frozen es)
      → dumps (mapping is_frozen es) ≡ some canonical
      → (length (sha256_hex canonical) == 64) ≡ true
      → all_hex (sha256_hex canonical) ≡ true
      → (p : ContentPayload) × (from_mapping dumps sha256_hex (mapping is_frozen es) ≡ ok p)
        × IsOf (mapping is_frozen es) canonical p
  from_mapping-IsOf is_frozen es canonical j d l x =
      let t = thaw_json_value-freeze_json_value (mapping is_frozen es) j in
      let z = freeze_json_value-IsFrozen (mapping is_frozen es) t.0 t.1 in
      let both =
        made is_frozen es canonical t.0 d l x t.1 z.1 (freeze-mapping is_frozen es t.0 t.1) t.2 in
      (
        record { body = t.0; sha256 = sha256_hex canonical },
        both.0,
        record { frozen = z.0; thawed = t.2; hashed = refl; accepted_again = both.1 },
      )
