-- ===== src/Capture/MessageLedger/Strict.antt =====
-- The evidence that is made from the projections of a ledger, at the completion gate.
use discord_context_bridge.Capture.Reconcile.Sets.{IsDistinct-duplicates}
use discord_context_bridge.Shared.{
  true, false, [], ◌∷◌, str, end, field, inl, inr, Runtime, String, Bool, Fields, ◌≡◌, refl, List,
  IsDistinct, arith, str_eq, sym, is_nil, ap, is_empty, eq_iff, strip, length, ◌∙◌, digest, ◌≤◌,
  ◌<◌, Bool-cases,
}
use discord_context_bridge.Capture.Reconcile.{
  duplicates, same_set, is_subset, one_set, one_digest, message_evidence, attachment_evidence,
  trusted_producer,
}
use discord_context_bridge.Capture.MessageLedger.{
  Runtime, String, Bool, Fields, List, str_eq, is_empty, length, strip,
}
use discord_context_bridge.Capture.MessageLedger.Projections.{
  Projections, strict_evidence, strict_keys, identifiers_of, or_unknown, evidence_schema,
  manifest_schema,
}
use discord_context_bridge.FullCapture.{
  recompute_from_bound_evidence, count, route_of, as_id_sequence,
}
use discord_context_bridge.FullCapture.Route.{build_capture_route_policy}
use discord_context_bridge.FullCapture.Conditions.{IsComplete}

abbrev pub strict_fields : Runtime → Projections → String → Bool → Bool → Fields
strict_fields rt p route target_bound evidence_fresh = message_evidence rt (identifiers_of p) (
    attachment_evidence (identifiers_of p) p.evidence.attachment_inventory_complete (
      field "evidence_producer" (str trusted_producer)
        (strict_keys p route target_bound evidence_fresh)))

pub strict_evidence-eq :
    (rt : Runtime) (p : Projections) (route : String) (target_bound evidence_fresh : Bool)
    → strict_evidence rt p route target_bound evidence_fresh
      ≡ strict_fields rt p route target_bound evidence_fresh
unfolding strict_evidence strict_keys
strict_evidence-eq rt p route target_bound evidence_fresh = refl

pub not_recomputed :
    (rt : Runtime) (p : Projections) (route : String) (target_bound evidence_fresh : Bool)
    → recompute_from_bound_evidence rt (strict_fields rt p route target_bound evidence_fresh)
      ≡ record { recomputed = end; mismatched_keys = [] }
unfolding recompute_from_bound_evidence strict_keys as_id_sequence
not_recomputed rt p route target_bound evidence_fresh = refl

-- What the projections of a ledger have in common.
pub record IsView (p : Projections) : Type 0 where
  pub markdown_same : p.markdown.message_ids ≡ p.raw.message_ids
  pub once : IsDistinct p.raw.message_ids
  pub evidence_named : str_eq p.evidence.schema evidence_schema ≡ true
  pub manifest_named : str_eq p.attachment_manifest.schema manifest_schema ≡ true
  pub hashed : is_nil p.evidence.artifact_hashes ≡ false

-- What the gate asks of the projections of a ledger. It does not ask whether the windows of the
-- messages conflict.
pub record IsStrict (p : Projections) (route : String) (target_bound evidence_fresh : Bool)
    : Type 0 where
  pub supported :
      str_eq (build_capture_route_policy (or_unknown route)).primary_read "unsupported" ≡ false
  pub target : target_bound ≡ true
  pub fresh : evidence_fresh ≡ true
  pub capture : is_empty (strip p.evidence.capture_id) ≡ false
  pub some_message : is_nil p.raw.message_ids ≡ false
  pub oldest : p.evidence.oldest_reached ≡ true
  pub latest : p.evidence.latest_reached ≡ true
  pub watermark : p.evidence.upper_watermark_reached ≡ true
  pub stable : p.evidence.capture_stable_after_rescan ≡ true
  pub scans : 2 ≤ p.evidence.stable_scan_count
  pub gaps : p.evidence.unresolved_gap_count ≡ 0
  pub retries : p.evidence.pending_retry_count ≡ 0
  pub inventory : p.evidence.attachment_inventory_complete ≡ true
  pub saved_count :
      length p.attachment_manifest.saved_attachment_ids
      ≡ length p.attachment_manifest.attachment_ids
  pub saved_same :
      same_set p.attachment_manifest.attachment_ids p.attachment_manifest.saved_attachment_ids
      ≡ true

is_subset-cons :
    (y : String) (xs ys : List String) → is_subset xs ys ≡ true → is_subset xs (y ∷ ys) ≡ true
unfolding is_subset
is_subset-cons y [] ys h = refl
is_subset-cons y (x ∷ xs) ys h = ground (arith, is_subset-cons y xs ys)

pub is_subset_self : (xs : List String) → is_subset xs xs ≡ true
unfolding is_subset
is_subset_self [] = refl
is_subset_self (x ∷ xs) = ground (arith, eq_iff x x, is_subset-cons x xs xs (is_subset_self xs))

one_set_self : (xs : List String) → one_set xs xs xs ≡ true
unfolding one_set same_set
one_set_self xs = ground (arith, is_subset_self xs)

one_set-saved : (xs ys : List String) → one_set xs ys ys ≡ same_set xs ys
unfolding one_set same_set
one_set-saved xs ys = ground arith

one_digest_self : (rt : Runtime) (xs : List String) → one_digest rt xs xs xs ≡ true
unfolding one_digest
one_digest_self rt xs = ground (arith, eq_iff (digest rt xs) (digest rt xs))

route_of-strict :
    (rt : Runtime) (p : Projections) (route : String) (target_bound evidence_fresh : Bool)
    → route_of rt (strict_fields rt p route target_bound evidence_fresh) ≡ or_unknown route
unfolding strict_keys
route_of-strict rt p route target_bound evidence_fresh = elim (Bool-cases (is_empty route)) [
  | inl blank ↦ rw blank refl
  | inr given ↦ rw given (rw given refl)
]

is_nil-pos : (xs : List String) → 0 < length xs → is_nil xs ≡ false
is_nil-pos [] h = absurd (omega arith)
is_nil-pos (x ∷ xs) h = refl

pos-is_nil : (xs : List String) → is_nil xs ≡ false → 0 < length xs
pos-is_nil [] h = absurd cc
pos-is_nil (x ∷ xs) h = omega arith

pub complete-IsStrict :
    (rt : Runtime) (p : Projections) (route : String) (target_bound evidence_fresh : Bool)
    → IsComplete rt (strict_fields rt p route target_bound evidence_fresh) []
    → IsStrict p route target_bound evidence_fresh
unfolding strict_keys count
complete-IsStrict rt p route target_bound evidence_fresh h = record {
  supported = rw (← route_of-strict rt p route target_bound evidence_fresh) h.route;
  target = h.target;
  fresh = h.fresh;
  capture = ground (arith, h.capture);
  some_message = is_nil-pos p.raw.message_ids h.some_message;
  oldest = h.oldest;
  latest = h.latest;
  watermark = h.watermark;
  stable = h.stable;
  scans = h.scans;
  gaps = h.gaps;
  retries = h.retries;
  inventory = h.inventory;
  saved_count = h.saved_count;
  saved_same =
      sym (
        one_set-saved p.attachment_manifest.attachment_ids
          p.attachment_manifest.saved_attachment_ids)
      ∙ h.attachment_sets;
}

pub strict-IsComplete :
    (rt : Runtime) (p : Projections) (route : String) (target_bound evidence_fresh : Bool)
    → IsView p
    → IsStrict p route target_bound evidence_fresh
    → IsComplete rt (strict_fields rt p route target_bound evidence_fresh) []
unfolding strict_keys count
strict-IsComplete rt p route target_bound evidence_fresh v h = record {
  route = rw (route_of-strict rt p route target_bound evidence_fresh) h.supported;
  producer = refl;
  target = h.target;
  capture = ground (arith, h.capture);
  schema = v.evidence_named;
  fresh = h.fresh;
  some_message = pos-is_nil p.raw.message_ids h.some_message;
  oldest = h.oldest;
  latest = h.latest;
  watermark = h.watermark;
  stable = h.stable;
  scans = h.scans;
  gaps = h.gaps;
  duplicates = rw v.markdown_same (
      let none_twice : duplicates p.raw.message_ids ≡ 0 =
        IsDistinct-duplicates p.raw.message_ids v.once in
      ground (arith, none_twice));
  raw_count = refl;
  markdown_count = ap length v.markdown_same;
  ledger_count = refl;
  message_sets = rw v.markdown_same (one_set_self p.raw.message_ids);
  message_order = rw v.markdown_same (one_digest_self rt p.raw.message_ids);
  hashes = rw v.hashed refl;
  inventory = h.inventory;
  saved_count = h.saved_count;
  manifest_count = h.saved_count;
  attachment_sets =
      one_set-saved p.attachment_manifest.attachment_ids p.attachment_manifest.saved_attachment_ids
      ∙ h.saved_same;
  manifest = v.manifest_named;
  retries = h.retries;
  external = refl;
  no_mismatch = refl;
}
