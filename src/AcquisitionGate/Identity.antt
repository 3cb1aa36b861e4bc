-- ===== src/AcquisitionGate/Identity.antt =====
-- `capture_id_from_attempt_identity` of acquisition_gate.py, and the two patterns that it and
-- capture/orchestrator.py match.
use discord_context_bridge.Shared.{
  ℕ, Bool, true, false, ◌&&◌, ◌||◌, String, List, [], ◌∷◌, Result, ok, err, leb, ◌==◌,
  if◌then◌else◌, length, all, codes, Value, str, obj, Fields, end, field, find, get, is_some,
  is_text, contains, Runtime, digest,
}

pub data IdentityError : Type 0 where
  structure_invalid identity_invalid : IdentityError

abbrev pub is_digit : ℕ → Bool
is_digit c = leb b'0' c && leb c b'9'

abbrev pub is_alphanumeric : ℕ → Bool
is_alphanumeric c = is_digit c || (leb b'A' c && leb c b'Z') || (leb b'a' c && leb c b'z')

-- `[A-Za-z0-9][A-Za-z0-9._-]{0,127}`
unfoldable pub matches_attempt_id : List ℕ → Bool
matches_attempt_id [] = false
matches_attempt_id (c ∷ cs) =
    is_alphanumeric c
    && leb (length cs) 127
    && all (λ d. is_alphanumeric d || d == b'.' || d == b'_' || d == b'-') cs

-- `[0-9a-f]{64}`
unfoldable pub matches_hex_digest : List ℕ → Bool
matches_hex_digest cs = length cs == 64 && all (λ c. is_digit c || (leb b'a' c && leb c b'f')) cs

abbrev attempt_schema : String
attempt_schema = "dcb-capture-attempt-identity.v1"

-- `set(identity) <= keys`
abbrev has_only : List String → Fields → Bool
has_only keys end = true
has_only keys (field k v fs) = contains k keys && has_only keys fs

-- `set(identity) == {"schema", "base_capture_id", "attempt_id"}`
has_identity_keys : Fields → Bool
has_identity_keys fs =
    has_only ("schema" ∷ "base_capture_id" ∷ "attempt_id" ∷ []) fs
    && is_some (find "schema" fs)
    && is_some (find "base_capture_id" fs)
    && is_some (find "attempt_id" fs)

bound_id : Runtime → Bool → Value → Value → Result IdentityError String
bound_id rt schema_ok (str base) (str attempt) =
    if schema_ok && matches_hex_digest (codes base) && matches_attempt_id (codes attempt)
    then ok (digest rt ("dcb-capture-attempt.v1" ∷ base ∷ attempt ∷ []))
    else err identity_invalid
bound_id rt schema_ok _ _ = err identity_invalid

unfoldable pub capture_id_from_attempt_identity : Runtime → Value → Result IdentityError String
unfolding has_identity_keys bound_id
capture_id_from_attempt_identity rt (obj fs) =
    if has_identity_keys fs
    then bound_id rt (is_text attempt_schema (get "schema" fs)) (get "base_capture_id" fs)
        (get "attempt_id" fs)
    else err structure_invalid
capture_id_from_attempt_identity rt _ = err structure_invalid

-- The record that `new_capture_run` writes.
unfoldable pub attempt_identity : String → String → Value
attempt_identity base attempt = obj (
    field "schema" (str attempt_schema)
      (field "base_capture_id" (str base) (field "attempt_id" (str attempt) end)))
