-- ===== src/Content/Payload.antt =====
-- version.py: a payload, which is a frozen mapping with the hash of its canonical JSON text.
-- `json.dumps` and `hashlib.sha256` are parameters.
pub mod Integrity
use eduvijna_aieos_backend.Prelude.{
  ℕ, ◌≡◌, Bool, true, false, ◌&&◌, ◌||◌, Option, none, some, List, [], ◌∷◌, length, leb, ◌==◌, ok,
  err, ◌>>=◌, ◌>>◌, guard,
}
use eduvijna_aieos_backend.Python.Text.{Text, text_eq}
use eduvijna_aieos_backend.Content.Vocabulary.{ContentResult, invalid_payload}
use eduvijna_aieos_backend.Content.Json.{
  Value, freeze_json_value, freeze_payload_mapping, thaw_json_value, require_mapping,
}

-- `"0123456789abcdef"`
abbrev pub is_hex_digit : ℕ → Bool
is_hex_digit c = (leb b'0' c && leb c b'9') || (leb b'a' c && leb c b'f')

unfoldable pub all_hex : Text → Bool
all_hex [] = true
all_hex (c ∷ s) = is_hex_digit c && all_hex s

-- `PayloadSha256`
unfoldable pub payload_sha256 : Text → ContentResult Text
unfolding all_hex
payload_sha256 value = do
  guard (length value == 64) invalid_payload
  guard (all_hex value) invalid_payload
  ok value

pub record ContentPayload : Type 0 where
  pub body : Value
  pub sha256 : Text

-- `json.dumps` with sorted keys and no blanks, which raises on what is no JSON, and the hexadecimal
-- SHA-256 digest of the UTF-8 bytes of a text.
module _ (dumps : Value → Option Text) (sha256_hex : Text → Text) where
  abbrev dumped : Option Text → ContentResult Text
  dumped none = err invalid_payload
  dumped (some text) = ok text

  unfoldable pub canonical_payload_json : Value → ContentResult Text
  unfolding thaw_json_value
  canonical_payload_json body = dumped (dumps (thaw_json_value body))

  -- `ContentPayload.__post_init__`
  unfoldable pub construct : Value → Text → ContentResult ContentPayload
  unfolding freeze_payload_mapping canonical_payload_json payload_sha256
  construct body sha256 = do
    given ← require_mapping body
    frozen ← freeze_payload_mapping given
    canonical ← canonical_payload_json frozen
    digest ← payload_sha256 (sha256_hex canonical)
    guard (text_eq digest sha256) invalid_payload
    ok (record { body = frozen; sha256 = sha256 })

  unfoldable pub from_mapping : Value → ContentResult ContentPayload
  unfolding freeze_payload_mapping canonical_payload_json payload_sha256 construct
  from_mapping body = do
    frozen ← freeze_payload_mapping body
    canonical ← canonical_payload_json frozen
    digest ← payload_sha256 (sha256_hex canonical)
    construct frozen digest
