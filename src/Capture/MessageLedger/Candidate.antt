-- ===== src/Capture/MessageLedger/Candidate.antt =====
-- The completion gate on the views of a ledger, and the candidate that the views announce.
use discord_context_bridge.Shared.{
  true, false, [], ◌∷◌, ok, end, pos, negsuc, ℤ, List, ◌≡◌, Runtime, arith, String, Fields, ◌↔◌,
  ◌≤◌, Bool, eq_iff, refl, length, str_eq, is_empty, strip, sorted_set, ap, sym,
}
use discord_context_bridge.Capture.MessageLedger.{
  Ledger, Event, same_texts, List, ℤ, Runtime, String, Fields, Bool, length, str_eq, is_empty,
  strip,
}
use discord_context_bridge.Capture.MessageLedger.Reduction.{reduce_messages}
use discord_context_bridge.Capture.MessageLedger.Projections.{
  Projections, Scan, ViewHashing, build_capture_projections, projections_of, strict_evidence,
  raw_view, markdown_view, manifest_view, derived_evidence, or_unknown, at_least_zero, is_zero,
  stable_rescan,
}
use discord_context_bridge.Capture.MessageLedger.Strict.{
  IsView, IsStrict, strict_fields, strict_evidence-eq, not_recomputed, complete-IsStrict,
  strict-IsComplete, is_subset_self,
}
use discord_context_bridge.Capture.MessageLedger.Closing.{built, projections-IsView}
use discord_context_bridge.Capture.Reconcile.{same_set}
use discord_context_bridge.FullCapture.{full, evaluate_full_capture, recompute_from_bound_evidence}
use discord_context_bridge.FullCapture.Route.{build_capture_route_policy}
use discord_context_bridge.FullCapture.Conditions.{IsComplete, evaluate-IsComplete}

built-IsView :
    (v : ViewHashing) (l : Ledger) (q : Scan) {p : Projections}
    → build_capture_projections v l q ≡ ok p
    → IsView p
built-IsView v l q made =
    let (es, here, same) = built v l q made in rw (← same) (projections-IsView v l q es)

full_iff_IsComplete :
    (rt : Runtime) (evidence : Fields)
    → recompute_from_bound_evidence rt evidence ≡ record { recomputed = end; mismatched_keys = [] }
    → ((evaluate_full_capture rt evidence).status ≡ full) ↔ IsComplete rt evidence []
full_iff_IsComplete rt evidence same = rw same at ((evaluate-IsComplete rt evidence).0)

-- The gate says full of the views of a ledger exactly if they have a message, the ends and the
-- watermark were reached, the last two of its scans agree, nothing is missing or to be retried, the
-- attachments are those that were saved, and the route, the target, the time and the capture id are
-- right. It does not ask whether the order of the messages is in conflict.
pub strict_evidence-IsStrict :
    (rt : Runtime) (v : ViewHashing) (l : Ledger) (q : Scan) (route : String)
    (target_bound evidence_fresh : Bool) {p : Projections}
    → build_capture_projections v l q ≡ ok p
    → ((evaluate_full_capture rt (strict_evidence rt p route target_bound evidence_fresh)).status
        ≡ full)
      ↔ IsStrict p route target_bound evidence_fresh
strict_evidence-IsStrict rt v l q route target_bound evidence_fresh {p} made =
    let (there, back) =
      full_iff_IsComplete rt (strict_fields rt p route target_bound evidence_fresh)
        (not_recomputed rt p route target_bound evidence_fresh) in
    rw (strict_evidence-eq rt p route target_bound evidence_fresh) (
      λ says. complete-IsStrict rt p route target_bound evidence_fresh (there says),
      λ strict. back (
          strict-IsComplete rt p route target_bound evidence_fresh (built-IsView v l q made)
            strict),
    )

same_texts-eq : (xs ys : List String) → same_texts xs ys ≡ true → xs ≡ ys
same_texts-eq [] [] h = refl
same_texts-eq [] (y ∷ ys) h = absurd cc
same_texts-eq (x ∷ xs) [] h = absurd cc
same_texts-eq (x ∷ xs) (y ∷ ys) h =
    let first : x ≡ y = (eq_iff x y).0 (ground (arith, h)) in
    let rest : xs ≡ ys = same_texts-eq xs ys (ground (arith, h)) in cc (first, rest)

is_zero-at_least_zero : (n : ℤ) → is_zero n ≡ true → at_least_zero n ≡ 0
is_zero-at_least_zero (pos n) h = ground arith
is_zero-at_least_zero (negsuc n) h = absurd cc

stable_rescan-length : (ds : List String) → stable_rescan ds ≡ true → 2 ≤ length ds
unfolding stable_rescan
stable_rescan-length [] h = absurd cc
stable_rescan-length (x ∷ []) h = absurd cc
stable_rescan-length (x ∷ y ∷ ds) h = omega arith

same_set_self : (xs : List String) → same_set xs xs ≡ true
unfolding same_set
same_set_self xs = ground (arith, is_subset_self xs)

candidate-IsStrict :
    (v : ViewHashing) (l : Ledger) (q : Scan) (es : List Event) (route : String)
    → (projections_of v l q (reduce_messages es)).evidence.full_candidate ≡ true
    → str_eq (build_capture_route_policy (or_unknown route)).primary_read "unsupported" ≡ false
    → is_empty (strip l.capture_id) ≡ false
    → IsStrict (projections_of v l q (reduce_messages es)) route true true
unfolding projections_of raw_view markdown_view manifest_view derived_evidence
candidate-IsStrict v l q es route candidate supported capture =
    let saved = sorted_set q.saved_attachment_ids in
    let attachments : (reduce_messages es).attachment_ids ≡ saved =
      same_texts-eq (reduce_messages es).attachment_ids saved (ground (arith, candidate)) in
    let stable : stable_rescan q.stable_scan_digests ≡ true = ground (arith, candidate) in
    record {
      supported = supported;
      target = refl;
      fresh = refl;
      capture = capture;
      some_message = ground (arith, candidate);
      oldest = ground (arith, candidate);
      latest = ground (arith, candidate);
      watermark = ground (arith, candidate);
      stable = stable;
      scans = stable_rescan-length q.stable_scan_digests stable;
      gaps = is_zero-at_least_zero q.unresolved_gap_count (ground (arith, candidate));
      retries = is_zero-at_least_zero q.pending_retry_count (ground (arith, candidate));
      inventory = ground (arith, candidate);
      saved_count = ap length (sym attachments);
      saved_same = rw attachments (same_set_self saved);
    }

-- A ledger whose views announce a full candidate passes the gate, if the route is a supported one
-- and the capture has an id.
pub candidate-full :
    (rt : Runtime) (v : ViewHashing) (l : Ledger) (q : Scan) (route : String) {p : Projections}
    → build_capture_projections v l q ≡ ok p
    → p.evidence.full_candidate ≡ true
    → str_eq (build_capture_route_policy (or_unknown route)).primary_read "unsupported" ≡ false
    → is_empty (strip l.capture_id) ≡ false
    → (evaluate_full_capture rt (strict_evidence rt p route true true)).status ≡ full
candidate-full rt v l q route {p} made candidate supported capture =
    let (es, here, same) = built v l q made in
    let strict : IsStrict p route true true =
      rw (← same)
        (candidate-IsStrict v l q es route (rw (← same) at candidate) supported capture) in
    (strict_evidence-IsStrict rt v l q route true true made).1 strict
