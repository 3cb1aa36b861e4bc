-- ===== src/Capture/ParallelCloseout/Stopped.antt =====
-- What the end of a run proves, for the tests of capture/parallel_closeout.py: its stop receipt and
-- the receipts of its producers.
use discord_context_bridge.Capture.ParallelCloseout.Items.{mapping_value_iff, OneOf, one_of-OneOf}
use discord_context_bridge.Capture.ParallelCloseout.Evidence.{
  valid_drain, drain_receipts, producer_drains_sha256, drain_field, valid_stop,
  run_quiescence_blocker, stop_reasons,
}
use discord_context_bridge.Capture.ParallelCloseout.{
  Hashed, Fields, RunDir, given_text, is_empty, get, expected_worker_names, is_text,
  run_definition_sha256, Option, is_null, is_digest, List, mapping_value, Bool, one_of,
}
use discord_context_bridge.Shared.{
  true, false, none, some, [], ◌∷◌, str, bool, null, int, float, obj, arr, inl, inr, String, Value,
  ◌≡◌, Fields, is_empty, get, is_nil, ◌↔◌, is_text_iff, arith, and-eq-true, All, refl, is_text,
  and_six, sorted_set, Option, is_null, List, ◌⊎◌, Option-cases, is_some, subst, Bool-cases, sym,
  ap, Bool, ◌&&◌, ◌∙◌, is_true_iff, is_true,
}

-- A text that is not empty.
abbrev pub IsGiven : Value → Type 0
IsGiven v = (s : String) × (v ≡ str s) × (is_empty s ≡ false)

-- The receipt of a producer that drained.
abbrev pub IsDrain : String → String → Fields → Type 0
IsDrain digest producer r =
    (get "schema" r ≡ str "dcb.parallel-producer-drain-receipt.v1")
    × (get "event_type" r ≡ str "producer.drained")
    × IsGiven (get "event_id" r)
    × (get "producer" r ≡ str producer)
    × (get "run_definition_sha256" r ≡ str digest)
    × (get "emitted_by" r ≡ str producer)
    × (get "outbound_actions" r ≡ str "disabled")

abbrev pub Drained : String → RunDir → String → Type 0
Drained digest dir producer =
    (r : Fields) × (dir.terminal producer ≡ some (obj r)) × IsDrain digest producer r

-- The run has workers, and each of them and the importer left its receipt.
abbrev pub AllDrained : Hashed → RunDir → Fields → Type 0
AllDrained h dir metadata =
    (is_nil (expected_worker_names h.runtime metadata) ≡ false)
    × All (Drained (run_definition_sha256 h metadata) dir)
        (sorted_set ("importer" ∷ expected_worker_names h.runtime metadata))

given_text-IsGiven : (v : Value) → (given_text v ≡ true) ↔ IsGiven v
given_text-IsGiven (str s) = (λ h. (s, refl, ground arith), λ h. ground (arith, h.1, h.2))
given_text-IsGiven (bool b) = (λ h. absurd (cc h), λ h. absurd (cc (h.1)))
given_text-IsGiven null = (λ h. absurd (cc h), λ h. absurd (cc (h.1)))
given_text-IsGiven (int n) = (λ h. absurd (cc h), λ h. absurd (cc (h.1)))
given_text-IsGiven (float x) = (λ h. absurd (cc h), λ h. absurd (cc (h.1)))
given_text-IsGiven (obj fs) = (λ h. absurd (cc h), λ h. absurd (cc (h.1)))
given_text-IsGiven (arr vs) = (λ h. absurd (cc h), λ h. absurd (cc (h.1)))

valid_drain-IsDrain :
    (digest producer : String) (r : Fields)
    → (valid_drain digest producer r ≡ true) ↔ IsDrain digest producer r
unfolding valid_drain
valid_drain-IsDrain digest producer r =
    let schema = is_text_iff "dcb.parallel-producer-drain-receipt.v1" (get "schema" r) in
    let event = is_text_iff "producer.drained" (get "event_type" r) in
    let id = given_text-IsGiven (get "event_id" r) in
    let named = is_text_iff producer (get "producer" r) in
    let run = is_text_iff digest (get "run_definition_sha256" r) in
    let by = is_text_iff producer (get "emitted_by" r) in
    let outbound = is_text_iff "disabled" (get "outbound_actions" r) in
    (
      λ t.
          let (six, last) = (and-eq-true _ (is_text "disabled" (get "outbound_actions" r))).0 t in
          let tests =
            and_six (is_text "dcb.parallel-producer-drain-receipt.v1" (get "schema" r))
              (is_text "producer.drained" (get "event_type" r)) (given_text (get "event_id" r))
              (is_text producer (get "producer" r)) (is_text digest (get "run_definition_sha256" r))
              (is_text producer (get "emitted_by" r)) six in
          (
            schema.0 tests.0,
            event.0 tests.1,
            id.0 tests.2,
            named.0 tests.3,
            run.0 tests.4,
            by.0 tests.5,
            outbound.0 last,
          ),
      λ p.
          let one = schema.1 p.0 in
          let two = event.1 p.1 in
          let three = id.1 p.2 in
          let four = named.1 p.3 in
          let five = run.1 p.4 in
          let six = by.1 p.5 in
          let seven = outbound.1 p.6 in cc (one, two, three, four, five, six, seven),
    )

drain_field-some :
    (digest producer : String) (dir : RunDir) (rest : Option Fields)
    → (is_some (drain_field digest producer (mapping_value (dir.terminal producer)) rest) ≡ true)
      ↔ (Drained digest dir producer × (is_some rest ≡ true))
drain_field-some digest producer dir none =
    elim (mapping_value (dir.terminal producer))
      as (λ found.
        (is_some (drain_field digest producer found none) ≡ true)
        ↔ (Drained digest dir producer × (is_some {A = Fields} none ≡ true))) [
          | none ↦ (λ t. absurd (cc t), λ p. absurd (cc (p.1)))
          | some r ↦ (λ t. absurd (cc t), λ p. absurd (cc (p.1)))
        ]
drain_field-some digest producer dir (some rest) =
    elim (Option-cases (mapping_value (dir.terminal producer))) [
      | inl missing ↦ rw missing (
        λ t. absurd (cc t),
        λ p. absurd (cc (missing, (mapping_value_iff (dir.terminal producer) p.0.0).1 p.0.1)),
      )
      | inr (r, found) ↦ rw found (
        λ t. (
          (
            r,
            (mapping_value_iff (dir.terminal producer) r).0 found,
            (valid_drain-IsDrain digest producer r).0 (ground arith),
          ),
          refl,
        ),
        λ p.
            let same : r ≡ p.0.0 =
              cc (found, (mapping_value_iff (dir.terminal producer) p.0.0).1 p.0.1) in
            let valid : valid_drain digest producer r ≡ true =
              rw same ((valid_drain-IsDrain digest producer p.0.0).1 p.0.2) in
            rw valid refl,
      )
    ]

drains-Drained :
    (digest : String) (dir : RunDir) (ps : List String)
    → (is_some (drain_receipts digest dir ps) ≡ true) ↔ All (Drained digest dir) ps
unfolding drain_receipts
drains-Drained digest dir [] = (λ t. tt, λ p. refl)
drains-Drained digest dir (p ∷ ps) =
    let (there, back) = drains-Drained digest dir ps in
    let (head, tail) = drain_field-some digest p dir (drain_receipts digest dir ps) in
    (λ t. let (first, rest) = head t in (first, there rest), λ q. tail (q.0, back q.1))

drains-AllDrained :
    (h : Hashed) (dir : RunDir) (metadata : Fields)
    → (is_some (producer_drains_sha256 h dir metadata) ≡ true) ↔ AllDrained h dir metadata
unfolding producer_drains_sha256
drains-AllDrained h dir metadata =
    let producers = sorted_set ("importer" ∷ expected_worker_names h.runtime metadata) in
    let found = drain_receipts (run_definition_sha256 h metadata) dir producers in
    let (there, back) = drains-Drained (run_definition_sha256 h metadata) dir producers in
    elim (Bool-cases (is_nil (expected_worker_names h.runtime metadata))) [
      | inl nobody ↦ rw nobody (λ t. absurd (cc t), λ p. absurd (cc (p.0)))
      | inr workers ↦ rw workers (elim (Option-cases found) [
        | inl missing ↦ rw missing (λ t. absurd (cc t), λ p. absurd (cc (missing, back p.1)))
        | inr (all, given) ↦ rw given (λ t. (refl, there (ap is_some given)), λ p. refl)
      ])
    ]

-- The stop receipt names the digest of the drain receipts, if all producers left one; if not, it has
-- no such field, or None in it.
abbrev pub NamesDrains : Hashed → RunDir → Fields → Fields → Type 0
NamesDrains h dir metadata r =
    (AllDrained h dir metadata
      × (d : String) × (producer_drains_sha256 h dir metadata ≡ some d)
      × (get "producer_drain_receipts_sha256" r ≡ str d))
    ⊎ ((AllDrained h dir metadata → ⊥) × (get "producer_drain_receipts_sha256" r ≡ null))

null_iff : (v : Value) → (is_null v ≡ true) ↔ (v ≡ null)
null_iff null = (λ h. refl, λ h. refl)
null_iff (str s) = (λ h. absurd (cc h), λ h. absurd (cc h))
null_iff (bool b) = (λ h. absurd (cc h), λ h. absurd (cc h))
null_iff (int n) = (λ h. absurd (cc h), λ h. absurd (cc h))
null_iff (float x) = (λ h. absurd (cc h), λ h. absurd (cc h))
null_iff (obj fs) = (λ h. absurd (cc h), λ h. absurd (cc h))
null_iff (arr vs) = (λ h. absurd (cc h), λ h. absurd (cc h))

names-NamesDrains :
    (h : Hashed) (dir : RunDir) (metadata r : Fields)
    → (is_digest (producer_drains_sha256 h dir metadata) (get "producer_drain_receipts_sha256" r)
        ≡ true)
      ↔ NamesDrains h dir metadata r
names-NamesDrains h dir metadata r =
    let (there, back) = drains-AllDrained h dir metadata in
    let v = get "producer_drain_receipts_sha256" r in
    elim (Option-cases (producer_drains_sha256 h dir metadata)) [
      | inl missing ↦ (
        λ t. inr (
          λ all. absurd (cc (missing, back all)),
          (null_iff v).0 (subst (λ o. is_digest o v ≡ true) missing t),
        ),
        λ q. elim q [
          | inl named ↦ absurd (cc (missing, named.2))
          | inr silent ↦ subst (λ o. is_digest o v ≡ true) (sym missing) ((null_iff v).1 silent.1)
        ],
      )
      | inr (d, given) ↦ (
        λ t. inl (
          there (ap is_some given),
          d,
          given,
          (is_text_iff d v).0 (subst (λ o. is_digest o v ≡ true) given t),
        ),
        λ q. elim q [
          | inl named ↦
              subst (λ o. is_digest o v ≡ true) (sym named.2) ((is_text_iff named.1 v).1 named.3)
          | inr silent ↦ absurd (silent.0 (there (ap is_some given)))
        ],
      )
    ]

-- What the stop receipt of the run says, of its definition and of the files as they are.
abbrev pub IsStop : Hashed → RunDir → Fields → Fields → Type 0
IsStop h dir metadata r =
    (get "schema" r ≡ str "dcb.parallel-run-stop-receipt.v1")
    × (get "event_type" r ≡ str "producer.quiesced")
    × IsGiven (get "event_id" r)
    × OneOf ("completed" ∷ "producer_failed" ∷ "operator_cancelled" ∷ "superseded" ∷ [])
        (get "stopped_reason" r)
    × (get "run_definition_sha256" r ≡ str (run_definition_sha256 h metadata))
    × ((digest : String) × (dir.evidence_digest ≡ some digest)
        × (get "evidence_snapshot_sha256" r ≡ str digest))
    × (get "workers_drained" r ≡ bool true)
    × (get "importer_drained" r ≡ bool true)
    × NamesDrains h dir metadata r
    × (get "emitted_by" r ≡ str "discord-capture-event-router")
    × (get "outbound_actions" r ≡ str "disabled")

abbrev pub IsStopped : Hashed → RunDir → Fields → Type 0
IsStopped h dir metadata =
    (r : Fields) × (dir.stop_receipt ≡ some (obj r)) × IsStop h dir metadata r

snapshot_iff :
    (o : Option String) (v : Value)
    → ((is_some o && is_digest o v) ≡ true)
      ↔ ((digest : String) × (o ≡ some digest) × (v ≡ str digest))
snapshot_iff none v = (λ h. absurd (cc h), λ h. absurd (cc (h.1)))
snapshot_iff (some s) v =
    let (there, back) = is_text_iff s v in
    (
      λ h. (s, refl, there h),
      λ h. let same : s ≡ h.0 = cc (h.1) in back (h.2 ∙ ap (λ t. str t) (sym same)),
    )

valid_stop-tests :
    (h : Hashed) (dir : RunDir) (metadata r : Fields)
    → valid_stop h dir metadata r ≡ true
    → IsStop h dir metadata r
unfolding valid_stop
valid_stop-tests h dir metadata r valid =
    let (eleven, outbound) =
      (and-eq-true _ (is_text "disabled" (get "outbound_actions" r))).0 valid in
    let first : Bool =
      is_text "dcb.parallel-run-stop-receipt.v1" (get "schema" r)
      && is_text "producer.quiesced" (get "event_type" r)
      && given_text (get "event_id" r)
      && one_of stop_reasons (get "stopped_reason" r)
      && is_text (run_definition_sha256 h metadata) (get "run_definition_sha256" r)
      && is_some dir.evidence_digest in
    let later =
      and_six first (is_digest dir.evidence_digest (get "evidence_snapshot_sha256" r))
        (is_true (get "workers_drained" r)) (is_true (get "importer_drained" r))
        (is_digest (producer_drains_sha256 h dir metadata) (get "producer_drain_receipts_sha256" r))
        (is_text "discord-capture-event-router" (get "emitted_by" r)) eleven in
    let tests =
      and_six (is_text "dcb.parallel-run-stop-receipt.v1" (get "schema" r))
        (is_text "producer.quiesced" (get "event_type" r)) (given_text (get "event_id" r))
        (one_of stop_reasons (get "stopped_reason" r))
        (is_text (run_definition_sha256 h metadata) (get "run_definition_sha256" r))
        (is_some dir.evidence_digest) later.0 in
    let snapshot =
      (and-eq-true (is_some dir.evidence_digest)
          (is_digest dir.evidence_digest (get "evidence_snapshot_sha256" r))).1
        (tests.5, later.1) in
    (
      (is_text_iff "dcb.parallel-run-stop-receipt.v1" (get "schema" r)).0 tests.0,
      (is_text_iff "producer.quiesced" (get "event_type" r)).0 tests.1,
      (given_text-IsGiven (get "event_id" r)).0 tests.2,
      (one_of-OneOf stop_reasons (get "stopped_reason" r)).0 tests.3,
      (is_text_iff (run_definition_sha256 h metadata) (get "run_definition_sha256" r)).0 tests.4,
      (snapshot_iff dir.evidence_digest (get "evidence_snapshot_sha256" r)).0 snapshot,
      (is_true_iff (get "workers_drained" r)).0 later.2,
      (is_true_iff (get "importer_drained" r)).0 later.3,
      (names-NamesDrains h dir metadata r).0 later.4,
      (is_text_iff "discord-capture-event-router" (get "emitted_by" r)).0 later.5,
      (is_text_iff "disabled" (get "outbound_actions" r)).0 outbound,
    )

tests-valid_stop :
    (h : Hashed) (dir : RunDir) (metadata r : Fields)
    → IsStop h dir metadata r
    → valid_stop h dir metadata r ≡ true
unfolding valid_stop
tests-valid_stop h dir metadata r p =
    let schema = (is_text_iff "dcb.parallel-run-stop-receipt.v1" (get "schema" r)).1 p.0 in
    let event = (is_text_iff "producer.quiesced" (get "event_type" r)).1 p.1 in
    let id = (given_text-IsGiven (get "event_id" r)).1 p.2 in
    let reason = (one_of-OneOf stop_reasons (get "stopped_reason" r)).1 p.3 in
    let run =
      (is_text_iff (run_definition_sha256 h metadata) (get "run_definition_sha256" r)).1 p.4 in
    let snapshot =
      (and-eq-true (is_some dir.evidence_digest)
          (is_digest dir.evidence_digest (get "evidence_snapshot_sha256" r))).0
        ((snapshot_iff dir.evidence_digest (get "evidence_snapshot_sha256" r)).1 p.5) in
    let workers = (is_true_iff (get "workers_drained" r)).1 p.6 in
    let importer = (is_true_iff (get "importer_drained" r)).1 p.7 in
    let drains = (names-NamesDrains h dir metadata r).1 p.8 in
    let by = (is_text_iff "discord-capture-event-router" (get "emitted_by" r)).1 p.9 in
    let outbound = (is_text_iff "disabled" (get "outbound_actions" r)).1 p.10 in
    rw
      (
        schema, event, id, reason, run, snapshot.0, snapshot.1, workers, importer, drains, by,
        outbound,
      )
      refl

-- No blocker of the end of the run, exactly if it is stopped.
pub quiescence-IsStopped :
    (h : Hashed) (dir : RunDir) (metadata : Fields)
    → (run_quiescence_blocker h dir metadata ≡ none) ↔ IsStopped h dir metadata
unfolding run_quiescence_blocker
quiescence-IsStopped h dir metadata = elim (Option-cases (mapping_value dir.stop_receipt)) [
  | inl missing ↦ rw missing (
    λ t. absurd (cc t),
    λ p. absurd (cc (missing, (mapping_value_iff dir.stop_receipt p.0).1 p.1)),
  )
  | inr (r, found) ↦ rw found (elim (Bool-cases (valid_stop h dir metadata r)) [
    | inl valid ↦ rw valid (
      λ t. (
        r,
        (mapping_value_iff dir.stop_receipt r).0 found,
        valid_stop-tests h dir metadata r valid,
      ),
      λ p. refl,
    )
    | inr invalid ↦ rw invalid (
      λ t. absurd (cc t),
      λ p.
          let same : p.0 ≡ r = cc (found, (mapping_value_iff dir.stop_receipt p.0).1 p.1) in
          let valid =
            tests-valid_stop h dir metadata r (subst (λ q. IsStop h dir metadata q) same p.2) in
          absurd (cc (valid, invalid)),
    )
  ])
]
