-- ===== src/Capture/ParallelCloseout/Items.antt =====
-- What the files of an item of a run prove, for the tests of capture/parallel_closeout.py: its ready
-- file, its receipt, the line of the commit ledger, and the digests.
use discord_context_bridge.Capture.ParallelCloseout.{
  Hashed, valid_ready, one_of, is_index, String, Fields, at_place, get, is_text, contains,
  mapping_value, legacy_index, valid_receipt, Bool, ledger_matches_receipt, valid_source,
}
use discord_context_bridge.Shared.{
  true, false, none, some, [], ◌∷◌, str, bool, null, int, float, obj, arr, inl, inr, is_sha256,
  Value, Option, List, ℕ, ◌⊎◌, Fields, String, ◌≡◌, get, is_text, contains, ◌↔◌, refl, arith,
  is_text_iff, eq_iff, Bool, ◌&&◌, any, Bool-cases, and_six, and-eq-true,
}

-- The value is one of these texts.
abbrev pub OneOf : List String → Value → Type 0
OneOf names v = (s : String) × (v ≡ str s) × (contains s names ≡ true)

-- The worker and the index of the item.
abbrev pub IsPlaced : Hashed → ℕ → ℕ → Fields → Type 0
IsPlaced h w i fs =
    (legacy_index h (get "worker" fs) ≡ some w) × (legacy_index h (get "index" fs) ≡ some i)

abbrev pub IsReady : Hashed → ℕ → ℕ → Fields → Type 0
IsReady h w i fs =
    (get "schema" fs ≡ str "dcb.browser-spool.v1")
    × OneOf ("ready" ∷ "no_message_list" ∷ "nav_thread_missing" ∷ []) (get "status" fs)
    × IsPlaced h w i fs

-- The receipt of a committed item, with the digests of its ready file and of its text.
abbrev pub IsReceipt : Hashed → ℕ → ℕ → String → String → Fields → Type 0
IsReceipt h w i ready_digest text_digest r =
    (get "schema" r ≡ str "dcb-parallel-import-receipt.v1")
    × IsPlaced h w i r
    × (get "commit_state" r ≡ str "committed")
    × (get "source_status" r ≡ str "ready")
    × (get "outbound_actions" r ≡ str "disabled")
    × (get "ready_sha256" r ≡ str ready_digest)
    × (get "text_sha256" r ≡ str text_digest)
    × (is_sha256 (str ready_digest) ≡ true)
    × (is_sha256 (str text_digest) ≡ true)

-- The line of the commit ledger for such an item.
abbrev pub IsLine : Hashed → ℕ → ℕ → String → String → Fields → Type 0
IsLine h w i ready_digest text_digest line =
    OneOf ("dcb-parallel-commit-ledger.v1" ∷ "dcb-parallel-commit-ledger-supplement.v1" ∷ [])
      (get "schema" line)
    × IsPlaced h w i line
    × (get "commit_state" line ≡ str "committed")
    × (get "ready_sha256" line ≡ str ready_digest)
    × (get "text_sha256" line ≡ str text_digest)
    × (get "outbound_actions" line ≡ str "disabled")

abbrev pub AnyOf {ℓ} : {A : Type ℓ} → (A → Type 0) → List A → Type 0
AnyOf P [] = ⊥
AnyOf P (x ∷ xs) = P x ⊎ AnyOf P xs

pub one_of-OneOf : (names : List String) (v : Value) → (one_of names v ≡ true) ↔ OneOf names v
one_of-OneOf names (str s) = (λ h. (s, refl, h), λ h. ground (arith, h.1, h.2))
one_of-OneOf names (bool b) = (λ h. absurd (cc h), λ h. absurd (cc (h.1)))
one_of-OneOf names null = (λ h. absurd (cc h), λ h. absurd (cc (h.1)))
one_of-OneOf names (int n) = (λ h. absurd (cc h), λ h. absurd (cc (h.1)))
one_of-OneOf names (float x) = (λ h. absurd (cc h), λ h. absurd (cc (h.1)))
one_of-OneOf names (obj fs) = (λ h. absurd (cc h), λ h. absurd (cc (h.1)))
one_of-OneOf names (arr vs) = (λ h. absurd (cc h), λ h. absurd (cc (h.1)))

is_index_iff : (n : ℕ) (o : Option ℕ) → (is_index n o ≡ true) ↔ (o ≡ some n)
is_index_iff n none = (λ h. absurd (cc h), λ h. absurd (cc h))
is_index_iff n (some m) = (λ h. ground arith, λ h. ground arith)

at_place-IsPlaced :
    (h : Hashed) (w i : ℕ) (fs : Fields) → (at_place h w i fs ≡ true) ↔ IsPlaced h w i fs
at_place-IsPlaced h w i fs =
    let worker = is_index_iff w (legacy_index h (get "worker" fs)) in
    let index = is_index_iff i (legacy_index h (get "index" fs)) in
    (
      λ t. (worker.0 (ground arith), index.0 (ground arith)),
      λ p. let one = worker.1 p.0 in let two = index.1 p.1 in ground arith,
    )

pub mapping_value_iff :
    (o : Option Value) (fs : Fields) → (mapping_value o ≡ some fs) ↔ (o ≡ some (obj fs))
mapping_value_iff none fs = (λ h. absurd (cc h), λ h. absurd (cc h))
mapping_value_iff (some (obj gs)) fs = (λ h. cc h, λ h. cc h)
mapping_value_iff (some (str s)) fs = (λ h. absurd (cc h), λ h. absurd (cc h))
mapping_value_iff (some (bool b)) fs = (λ h. absurd (cc h), λ h. absurd (cc h))
mapping_value_iff (some null) fs = (λ h. absurd (cc h), λ h. absurd (cc h))
mapping_value_iff (some (int n)) fs = (λ h. absurd (cc h), λ h. absurd (cc h))
mapping_value_iff (some (float x)) fs = (λ h. absurd (cc h), λ h. absurd (cc h))
mapping_value_iff (some (arr vs)) fs = (λ h. absurd (cc h), λ h. absurd (cc h))

pub valid_ready-IsReady :
    (h : Hashed) (w i : ℕ) (fs : Fields) → (valid_ready h w i fs ≡ true) ↔ IsReady h w i fs
unfolding valid_ready
valid_ready-IsReady h w i fs =
    let schema = is_text_iff "dcb.browser-spool.v1" (get "schema" fs) in
    let status =
      one_of-OneOf ("ready" ∷ "no_message_list" ∷ "nav_thread_missing" ∷ []) (get "status" fs) in
    let place = at_place-IsPlaced h w i fs in
    (
      λ t. (schema.0 (ground arith), status.0 (ground arith), place.0 (ground arith)),
      λ p.
          let one = schema.1 p.0 in
          let two = status.1 p.1 in let three = place.1 p.2 in cc (one, two, three),
    )

digest_text :
    (v : Value) → is_sha256 v ≡ true → (s : String) × (v ≡ str s) × (is_sha256 (str s) ≡ true)
unfolding is_sha256
digest_text (str s) h = (s, refl, h)
digest_text (bool b) h = absurd (cc h)
digest_text null h = absurd (cc h)
digest_text (int n) h = absurd (cc h)
digest_text (float x) h = absurd (cc h)
digest_text (obj fs) h = absurd (cc h)
digest_text (arr vs) h = absurd (cc h)

committed_state :
    (v : Value)
    → one_of ("committed" ∷ "recorded_without_text" ∷ []) v ≡ true
    → is_text "recorded_without_text" v ≡ false
    → v ≡ str "committed"
committed_state (str s) h with_text = ground (
  arith,
  eq_iff s "committed",
  eq_iff s "recorded_without_text",
  eq_iff "recorded_without_text" s,
)
committed_state (bool b) h with_text = absurd (cc h)
committed_state null h with_text = absurd (cc h)
committed_state (int n) h with_text = absurd (cc h)
committed_state (float x) h with_text = absurd (cc h)
committed_state (obj fs) h with_text = absurd (cc h)
committed_state (arr vs) h with_text = absurd (cc h)

source_tests :
    (r : Fields)
    → is_text "committed" (get "commit_state" r) ≡ true
    → valid_source r ≡ true
    → (is_text "ready" (get "source_status" r) && is_sha256 (get "text_sha256" r)) ≡ true
source_tests r committed h = rw committed at h

pub valid_receipt-IsReceipt :
    (h : Hashed) (w i : ℕ) (r : Fields)
    → valid_receipt h w i r ≡ true
    → is_text "recorded_without_text" (get "commit_state" r) ≡ false
    → (ready_digest : String) × (text_digest : String) × IsReceipt h w i ready_digest text_digest r
unfolding valid_receipt
valid_receipt-IsReceipt h w i r valid with_text =
    let tests =
      and_six (is_text "dcb-parallel-import-receipt.v1" (get "schema" r)) (at_place h w i r)
        (one_of ("committed" ∷ "recorded_without_text" ∷ []) (get "commit_state" r))
        (is_text "disabled" (get "outbound_actions" r)) (is_sha256 (get "ready_sha256" r))
        (valid_source r) valid in
    let state = committed_state (get "commit_state" r) tests.2 with_text in
    let committed = (is_text_iff "committed" (get "commit_state" r)).1 state in
    let of_source =
      (and-eq-true (is_text "ready" (get "source_status" r)) (is_sha256 (get "text_sha256" r))).0
        (source_tests r committed tests.5) in
    let (ready_digest, at_ready, ready_hex) = digest_text (get "ready_sha256" r) tests.4 in
    let (text_digest, at_text, text_hex) = digest_text (get "text_sha256" r) of_source.1 in
    (
      ready_digest,
      text_digest,
      (
        (is_text_iff "dcb-parallel-import-receipt.v1" (get "schema" r)).0 tests.0,
        (at_place-IsPlaced h w i r).0 tests.1,
        state,
        (is_text_iff "ready" (get "source_status" r)).0 of_source.0,
        (is_text_iff "disabled" (get "outbound_actions" r)).0 tests.3,
        at_ready,
        at_text,
        ready_hex,
        text_hex,
      ),
    )

pub IsReceipt-valid_receipt :
    (h : Hashed) (w i : ℕ) (ready_digest text_digest : String) (r : Fields)
    → IsReceipt h w i ready_digest text_digest r
    → (valid_receipt h w i r ≡ true)
      × (is_text "recorded_without_text" (get "commit_state" r) ≡ false)
unfolding valid_receipt
IsReceipt-valid_receipt h w i ready_digest text_digest r p =
    let place = (at_place-IsPlaced h w i r).1 p.1 in
    (rw (p.0, place, p.2, p.3, p.4, p.5, p.6, p.7, p.8) refl, rw p.2 refl)

pub matches-IsLine :
    (h : Hashed) (w i : ℕ) (ready_digest text_digest : String) (r line : Fields)
    → IsReceipt h w i ready_digest text_digest r
    → (ledger_matches_receipt h w i r line ≡ true) ↔ IsLine h w i ready_digest text_digest line
unfolding ledger_matches_receipt
matches-IsLine h w i ready_digest text_digest r line p =
    let schema =
      one_of-OneOf
        ("dcb-parallel-commit-ledger.v1" ∷ "dcb-parallel-commit-ledger-supplement.v1" ∷ [])
        (get "schema" line) in
    let place = at_place-IsPlaced h w i line in
    let state = is_text_iff "committed" (get "commit_state" line) in
    let ready = is_text_iff ready_digest (get "ready_sha256" line) in
    let text = is_text_iff text_digest (get "text_sha256" line) in
    let outbound = is_text_iff "disabled" (get "outbound_actions" line) in
    rw (p.2, p.5, p.6)
      (
        λ t.
            let tests =
              and_six
                (one_of
                  ("dcb-parallel-commit-ledger.v1" ∷ "dcb-parallel-commit-ledger-supplement.v1"
                    ∷ [])
                  (get "schema" line))
                (at_place h w i line) (is_text "committed" (get "commit_state" line))
                (is_text ready_digest (get "ready_sha256" line))
                (is_text text_digest (get "text_sha256" line))
                (is_text "disabled" (get "outbound_actions" line)) t in
            (
              schema.0 tests.0,
              place.0 tests.1,
              state.0 tests.2,
              ready.0 tests.3,
              text.0 tests.4,
              outbound.0 tests.5,
            ),
        λ q.
            let one = schema.1 q.0 in
            let two = place.1 q.1 in
            let three = state.1 q.2 in
            let four = ready.1 q.3 in
            let five = text.1 q.4 in
            let six = outbound.1 q.5 in cc (one, two, three, four, five, six),
      )

pub any-AnyOf :
    (p : Fields → Bool) (P : Fields → Type 0) (rows : List Fields)
    → ((line : Fields) → (p line ≡ true) ↔ P line)
    → (any p rows ≡ true) ↔ AnyOf P rows
any-AnyOf p P [] means = (λ h. absurd (cc h), λ h. absurd h)
any-AnyOf p P (line ∷ rows) means =
    let (there, back) = any-AnyOf p P rows means in
    (
      λ h. elim (Bool-cases (p line)) [
        | inl found ↦ inl ((means line).0 found)
        | inr later ↦ inr (there (ground arith))
      ],
      λ h. elim h [
        | inl found ↦ let here = (means line).1 found in ground arith
        | inr later ↦ let rest = back later in ground arith
      ],
    )
