-- ===== src/Capture/ParallelCloseout/Authority.antt =====
-- A certificate that a caller brings along closes no run as full.
use discord_context_bridge.Shared.{
  true, false, none, some, [], ◌∷◌, inl, inr, sorted_set, List, insert_text, Option, Runtime,
  String, Fields, Bool, is_nil, ℕ, ◌≡◌, ◌≢◌, Option-cases, refl, arith, ◌&&◌, failed, is_nil-append,
  ◌++◌,
}
use discord_context_bridge.Capture.ParallelCloseout.{
  RunDir, Hashed, Runtime, Option, List, String, Fields, Bool, ℕ,
}
use discord_context_bridge.Capture.ParallelCloseout.Evaluation.{
  Counts, full_closed, Parent, parent_blocker, parent_blockers, run_blockers, close, evaluate_items,
  evaluate_run, run_metadata, metadata_invalid, evaluate_legacy_parallel_run, bound_items,
  checks_of, evaluate_with,
}

insert_text-cons : (x : String) (xs : List String) → is_nil (insert_text x xs) ≡ false
unfolding insert_text
insert_text-cons x [] = refl
insert_text-cons x (y ∷ xs) = ground arith

pub is_nil-sorted_set : (xs : List String) → is_nil (sorted_set xs) ≡ is_nil xs
unfolding sorted_set
is_nil-sorted_set [] = refl
is_nil-sorted_set (x ∷ xs) = insert_text-cons x (sorted_set xs)

-- A run that is closed as full has no blocker, and its stop receipt raises none.
pub full-close :
    (c : Counts) (blockers : List String) (stop : Option String) (finalize : Bool)
    → (close c blockers stop finalize).terminal_state ≡ full_closed
    → (is_nil blockers ≡ true) × (stop ≡ none)
unfolding close
full-close c [] none finalize h = (refl, refl)
full-close c [] (some reason) finalize h = cc
full-close c (b ∷ bs) none true h = cc
full-close c (b ∷ bs) none false h = cc
full-close c (b ∷ bs) (some reason) finalize h = cc

abbrev brought : Option Fields → String → Parent
brought audit target_key = record { audit = audit; target_key = target_key; canonical = false }

unverified :
    (rt : Runtime) (audit : Option Fields) (target_key : String) (metadata : Fields)
    → is_nil (parent_blockers rt (brought audit target_key) metadata) ≡ false
unfolding parent_blockers
unverified rt audit target_key metadata = elim (Option-cases (parent_blocker audit)) [
  | inl none_found ↦ rw none_found refl
  | inr (reason, found) ↦ rw found refl
]

pub run_blockers-nil :
    (h : Hashed) (dir : RunDir) (p : Parent) (metadata : Fields) (expected : ℕ)
    → is_nil (run_blockers h dir p metadata expected) ≡ (
        is_nil (bound_items h dir metadata).blockers
        && is_nil (failed (checks_of h dir metadata expected))
        && is_nil (parent_blockers h.runtime p metadata))
run_blockers-nil h dir p metadata expected =
    let bound = (bound_items h dir metadata).blockers in
    let checks = failed (checks_of h dir metadata expected) in
    let parent = parent_blockers h.runtime p metadata in
    ground (arith, is_nil-append bound (checks ++ parent), is_nil-append checks parent)

items-running :
    (h : Hashed) (dir : RunDir) (audit : Option Fields) (target_key : String) (metadata : Fields)
    (expected : ℕ) (finalize : Bool)
    → (evaluate_items h dir (brought audit target_key) metadata expected finalize).terminal_state
      ≢ full_closed
unfolding evaluate_items
items-running h dir audit target_key metadata expected finalize says =
    let p : Parent = brought audit target_key in
    let (no_blocker, no_stop) =
      full-close _ (sorted_set (run_blockers h dir p metadata expected)) _ finalize says in
    absurd (
      ground (
        arith,
        no_blocker,
        is_nil-sorted_set (run_blockers h dir p metadata expected),
        run_blockers-nil h dir p metadata expected,
        unverified h.runtime audit target_key metadata,
      ))

with-running :
    (h : Hashed) (dir : RunDir) (audit : Option Fields) (target_key : String) (finalize : Bool)
    (found : Option (Fields × ℕ))
    → (evaluate_with h dir (brought audit target_key) finalize found).terminal_state ≢ full_closed
unfolding evaluate_with metadata_invalid
with-running h dir audit target_key finalize none says = absurd cc
with-running h dir audit target_key finalize (some (metadata, expected)) says =
    items-running h dir audit target_key metadata expected finalize says

-- Whatever certificate a caller brings along, and whatever the directory holds, its run is not
-- closed as full.
pub caller-not_full :
    (h : Hashed) (dir : RunDir) (audit : Option Fields) (target_key : String) (finalize : Bool)
    → (evaluate_legacy_parallel_run h dir audit target_key finalize).terminal_state ≢ full_closed
unfolding evaluate_legacy_parallel_run evaluate_run
caller-not_full h dir audit target_key finalize says =
    with-running h dir audit target_key finalize (run_metadata dir) says
