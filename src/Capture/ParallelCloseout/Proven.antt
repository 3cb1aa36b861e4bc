-- ===== src/Capture/ParallelCloseout/Proven.antt =====
-- What a run directory proves when `_evaluate_legacy_parallel_run` of capture/parallel_closeout.py
-- closes it as full.
use discord_context_bridge.Capture.ParallelCloseout.Stopped.{quiescence-IsStopped, IsStopped}
use discord_context_bridge.Capture.ParallelCloseout.Tested.{
  IsItem, item_tested, five, item_tested-IsItem, not-true,
}
use discord_context_bridge.Capture.ParallelCloseout.Evidence.{
  has_ready, load_commit_ledger, has_ledger, has_hashes, is_without_text,
}
use discord_context_bridge.Capture.ParallelCloseout.Evaluation.{
  Parent, run_metadata, bound_items, evaluate_run, has_receipt, full_closed, total_differs,
  parent_target_key_digest, parent_blocker,
}
use discord_context_bridge.Capture.ParallelCloseout.{
  Hashed, RunDir, List, all, Fields, not, length, shard_counts, get, is_empty, String, Option,
  is_text,
}
use discord_context_bridge.Shared.{
  true, false, none, some, [], ◌∷◌, str, Bool, ℕ, ◌≡◌, List, any, Fields, ◌&&◌, all, ◌↔◌, not, All,
  is_nil, arith, refl, length, is_text_iff, get, is_empty, bool, String, is_false_iff, Option,
  if◌then◌else◌, subst, is_true_iff, is_text, is_false, is_true,
}
use discord_context_bridge.Capture.ParallelCloseout.Complete.{IsChecked, evaluate-IsChecked}

-- The certificate of a parent that is captured in full.
abbrev pub IsFullParent : Fields → Type 0
IsFullParent fs =
    (get "schema" fs ≡ str "discord_parent_completeness_certificate.v1")
    × (get "raw_text_returned" fs ≡ bool false)
    × (get "identifiers_returned" fs ≡ bool false)
    × (get "outbound_actions" fs ≡ str "disabled")
    × (get "status" fs ≡ str "full")
    × (get "parent_full_capture_confirmed" fs ≡ bool true)

no_reason :
    (a b c d e f : Bool) (one two : String)
    → ((if not (a && b && c && d) then some one else if not (e && f) then some two else none)
        ≡ none)
      ↔ ((a ≡ true) × (b ≡ true) × (c ≡ true) × (d ≡ true) × (e ≡ true) × (f ≡ true))
no_reason true true true true true true one two =
    (λ t. (refl, refl, refl, refl, refl, refl), λ p. refl)
no_reason false b c d e f one two = (λ t. absurd (cc t), λ p. absurd (cc (p.0)))
no_reason true false c d e f one two = (λ t. absurd (cc t), λ p. absurd (cc (p.1)))
no_reason true true false d e f one two = (λ t. absurd (cc t), λ p. absurd (cc (p.2)))
no_reason true true true false e f one two = (λ t. absurd (cc t), λ p. absurd (cc (p.3)))
no_reason true true true true false f one two = (λ t. absurd (cc t), λ p. absurd (cc (p.4)))
no_reason true true true true true false one two = (λ t. absurd (cc t), λ p. absurd (cc (p.5)))

-- A run whose closeout is proven: its shards are those it declared and hold as many items as it
-- counted, the files of each item prove it, the certificate of the parent is a full one from the
-- store and for this run, and the run is stopped.
pub record IsProven (h : Hashed) (dir : RunDir) (p : Parent) (metadata : Fields) (expected : ℕ)
    : Type 0 where
  pub topology : is_nil (bound_items h dir metadata).blockers ≡ true
  pub counted : length (bound_items h dir metadata).bindings ≡ expected
  pub declared : total_differs expected (shard_counts metadata) ≡ false
  pub ledger_valid : (load_commit_ledger dir.commit_ledger).valid ≡ true
  pub items_proven :
      All
        (IsItem h dir (load_commit_ledger dir.commit_ledger).rows)
        (bound_items h dir metadata).bindings
  pub certificate : (fs : Fields) × (p.audit ≡ some fs) × IsFullParent fs
  pub canonical : p.canonical ≡ true
  pub target_key : is_empty p.target_key ≡ false
  pub bound :
      get "parent_target_key_sha256" metadata
      ≡ str (parent_target_key_digest h.runtime p.target_key)
  pub stopped : IsStopped h dir metadata

accepted : (fs : Fields) → (parent_blocker (some fs) ≡ none) ↔ IsFullParent fs
unfolding parent_blocker
accepted fs =
    let schema = is_text_iff "discord_parent_completeness_certificate.v1" (get "schema" fs) in
    let raw = is_false_iff (get "raw_text_returned" fs) in
    let ids = is_false_iff (get "identifiers_returned" fs) in
    let outbound = is_text_iff "disabled" (get "outbound_actions" fs) in
    let status = is_text_iff "full" (get "status" fs) in
    let confirmed = is_true_iff (get "parent_full_capture_confirmed" fs) in
    let tests =
      no_reason (is_text "discord_parent_completeness_certificate.v1" (get "schema" fs))
        (is_false (get "raw_text_returned" fs)) (is_false (get "identifiers_returned" fs))
        (is_text "disabled" (get "outbound_actions" fs)) (is_text "full" (get "status" fs))
        (is_true (get "parent_full_capture_confirmed" fs)) "parent_completeness_certificate_invalid"
        "parent_completeness_not_full" in
    (
      λ t.
          let p = tests.0 t in
          (schema.0 p.0, raw.0 p.1, ids.0 p.2, outbound.0 p.3, status.0 p.4, confirmed.0 p.5),
      λ p.
          tests.1
            (schema.1 p.0, raw.1 p.1, ids.1 p.2, outbound.1 p.3, status.1 p.4, confirmed.1 p.5),
    )

accepted_parent :
    (audit : Option Fields)
    → (parent_blocker audit ≡ none) ↔ ((fs : Fields) × (audit ≡ some fs) × IsFullParent fs)
unfolding parent_blocker
accepted_parent none = (λ t. absurd (cc t), λ p. absurd (cc (p.1)))
accepted_parent (some fs) = (
  λ t. (fs, refl, (accepted fs).0 t),
  λ p. let same : p.0 ≡ fs = cc (p.1) in (accepted fs).1 (subst (λ gs. IsFullParent gs) same p.2),
)

five_of :
    (a b c d e : Bool)
    → a ≡ true
    → b ≡ true
    → c ≡ true
    → d ≡ true
    → e ≡ false
    → (a && b && c && d && not e) ≡ true
five_of a b c d e one two three four five = rw (one, two, three, four, five) refl

all-cons :
    (p : ℕ × ℕ → Bool) (b : ℕ × ℕ) (bs : List (ℕ × ℕ))
    → (all p (b ∷ bs) ≡ true) ↔ ((p b ≡ true) × (all p bs ≡ true))
all-cons p b bs = ground arith

any-cons :
    (p : ℕ × ℕ → Bool) (b : ℕ × ℕ) (bs : List (ℕ × ℕ))
    → (any p (b ∷ bs) ≡ false) ↔ ((p b ≡ false) × (any p bs ≡ false))
any-cons p b bs = ground arith

module _ (h : Hashed) (dir : RunDir) (rows : List Fields) where
  all-IsItem :
      (bs : List (ℕ × ℕ))
      → all (has_ready h dir) bs ≡ true
      → all (has_receipt h dir) bs ≡ true
      → all (has_ledger h dir rows) bs ≡ true
      → all (has_hashes h dir) bs ≡ true
      → any (is_without_text h dir) bs ≡ false
      → All (IsItem h dir rows) bs
  all-IsItem [] ready receipts committed hashes texts = tt
  all-IsItem (b ∷ bs) ready receipts committed hashes texts =
      let one = (all-cons (has_ready h dir) b bs).0 ready in
      let two = (all-cons (has_receipt h dir) b bs).0 receipts in
      let three = (all-cons (has_ledger h dir rows) b bs).0 committed in
      let four = (all-cons (has_hashes h dir) b bs).0 hashes in
      let five = (any-cons (is_without_text h dir) b bs).0 texts in
      let tested : item_tested h dir rows b ≡ true =
        five_of (has_ready h dir b) (has_receipt h dir b) (has_ledger h dir rows b)
          (has_hashes h dir b) (is_without_text h dir b) one.0 two.0 three.0 four.0 five.0 in
      ((item_tested-IsItem h dir rows b).0 tested, all-IsItem bs one.1 two.1 three.1 four.1 five.1)

  IsItem-all :
      (bs : List (ℕ × ℕ))
      → All (IsItem h dir rows) bs
      → (all (has_ready h dir) bs ≡ true)
        × (all (has_receipt h dir) bs ≡ true)
        × (all (has_ledger h dir rows) bs ≡ true)
        × (all (has_hashes h dir) bs ≡ true)
        × (any (is_without_text h dir) bs ≡ false)
  IsItem-all [] proven = (refl, refl, refl, refl, refl)
  IsItem-all (b ∷ bs) proven =
      let rest = IsItem-all bs proven.1 in
      let t =
        five (has_ready h dir b) (has_receipt h dir b) (has_ledger h dir rows b)
          (has_hashes h dir b) (not (is_without_text h dir b))
          ((item_tested-IsItem h dir rows b).1 proven.0) in
      (
        (all-cons (has_ready h dir) b bs).1 (t.0, rest.0),
        (all-cons (has_receipt h dir) b bs).1 (t.1, rest.1),
        (all-cons (has_ledger h dir rows) b bs).1 (t.2, rest.2),
        (all-cons (has_hashes h dir) b bs).1 (t.3, rest.3),
        (any-cons (is_without_text h dir) b bs).1 (not-true (is_without_text h dir b) t.4, rest.4),
      )

IsChecked-IsProven :
    (h : Hashed) (dir : RunDir) (p : Parent) (metadata : Fields) (expected : ℕ)
    → IsChecked h dir p metadata expected
    → IsProven h dir p metadata expected
IsChecked-IsProven h dir p metadata expected i = record {
  topology = i.topology;
  counted = i.counted;
  declared = i.declared;
  ledger_valid = i.ledger_valid;
  items_proven =
      all-IsItem h dir (load_commit_ledger dir.commit_ledger).rows
        (bound_items h dir metadata).bindings i.ready i.receipts i.committed i.hashes i.texts;
  certificate = (accepted_parent p.audit).0 i.certificate;
  canonical = i.canonical;
  target_key = i.named;
  bound =
      (is_text_iff (parent_target_key_digest h.runtime p.target_key)
          (get "parent_target_key_sha256" metadata)).0
        i.bound;
  stopped = (quiescence-IsStopped h dir metadata).0 i.stopped;
}

IsProven-IsChecked :
    (h : Hashed) (dir : RunDir) (p : Parent) (metadata : Fields) (expected : ℕ)
    → IsProven h dir p metadata expected
    → IsChecked h dir p metadata expected
IsProven-IsChecked h dir p metadata expected i =
    let tests =
      IsItem-all h dir (load_commit_ledger dir.commit_ledger).rows
        (bound_items h dir metadata).bindings i.items_proven in
    record {
      topology = i.topology;
      counted = i.counted;
      declared = i.declared;
      ledger_valid = i.ledger_valid;
      ready = tests.0;
      receipts = tests.1;
      committed = tests.2;
      hashes = tests.3;
      texts = tests.4;
      certificate = (accepted_parent p.audit).1 i.certificate;
      canonical = i.canonical;
      named = i.target_key;
      bound =
          (is_text_iff (parent_target_key_digest h.runtime p.target_key)
              (get "parent_target_key_sha256" metadata)).1
            i.bound;
      stopped = (quiescence-IsStopped h dir metadata).1 i.stopped;
    }

-- A run with valid metadata is closed as full, finalized or not, exactly if its shards are those
-- it declared and hold as many items as it counted, its commit ledger is valid, each item is
-- proven, the certificate of the parent says that it is captured in full, comes from the store and
-- is for this run, and its stop receipt is valid. An item is proven by a ready file, the receipt
-- of a commit with the SHA-256 of its ready file and of its text, and a line of the ledger with
-- both. A valid stop receipt is for this run definition and for the files as they are, says that
-- workers and importer drained, and names the digest of the drain receipts if the run has workers
-- and all of them and the importer left one; if not, it names no such digest.
pub evaluate-IsProven :
    (h : Hashed) (dir : RunDir) (p : Parent) (finalize : Bool) (metadata : Fields) (expected : ℕ)
    → run_metadata dir ≡ some (metadata, expected)
    → ((evaluate_run h dir p finalize).terminal_state ≡ full_closed)
      ↔ IsProven h dir p metadata expected
evaluate-IsProven h dir p finalize metadata expected valid =
    let (there, back) = evaluate-IsChecked h dir p finalize metadata expected valid in
    (
      λ closed. IsChecked-IsProven h dir p metadata expected (there closed),
      λ i. back (IsProven-IsChecked h dir p metadata expected i),
    )
