-- ===== src/Capture/MessageLedger/Chain.antt =====
-- The ledger is an append-only hash chain: its invariant, and repeated appends.
use mathlib.Core.List.{append-nil}
use discord_context_bridge.Capture.MessageLedger.{
  Semantic, Event, Ledger, Hashing, ledger_schema, semantic_of, same_event, find_event, last_hash,
  chain, place, append_message_event, length, eq_nat, str_eq, is_text, hash_of,
}
use discord_context_bridge.Shared.{
  ℕ, ◌+◌, ◌≡◌, inl, inr, true, List, [], ◌∷◌, ◌++◌, String, Option, none, some, Fields, ok, arith,
  refl, if◌then◌else◌, Bool-cases, eq_iff, length, sym, eq_nat, suc, ◌≤◌, is_text, str_eq,
  >>=-eq-ok, ap, last-append,
}

-- Events that continue a chain: numbered from `n`, each with the hash before it and its own.
abbrev pub Chained : Hashing → ℕ → String → List Event → Type 0
Chained h n before [] = Unit
Chained h n before (e ∷ es) =
    (eq_nat e.sequence n ≡ true)
    × (e.previous_event_hash ≡ before)
    × (e.event_hash ≡ h.event_digest e.semantic before)
    × Chained h (n + 1) e.event_hash es

-- No two events have one id.
abbrev pub DistinctIds : List Event → Type 0
DistinctIds [] = Unit
DistinctIds (e ∷ es) = (find_event e.event_id es ≡ none) × DistinctIds es

pub record IsLedger (h : Hashing) (l : Ledger) (es : List Event) : Type 0 where
  pub events : l.events ≡ some es
  pub chained : Chained h 1 "" es
  pub distinct : DistinctIds es
  pub tip : l.tip_hash ≡ last_hash es

hash_after : String → List Event → String
hash_after before [] = before
hash_after before (e ∷ es) = hash_after e.event_hash es

hash_after-last :
    (e : Event) (es : List Event) (before : String)
    → hash_after before (e ∷ es) ≡ last_hash (e ∷ es)
unfolding hash_after
hash_after-last e [] before = refl
hash_after-last e (f ∷ es) before = hash_after-last f es e.event_hash

last_hash-hash_after : (es : List Event) → last_hash es ≡ hash_after "" es
unfolding hash_after
last_hash-hash_after [] = refl
last_hash-hash_after (e ∷ es) = sym (hash_after-last e es "")

abbrev chained_event : Hashing → Semantic → String → Event
chained_event h s before = record {
  semantic = s;
  previous_event_hash = before;
  event_hash = h.event_digest s before;
}

Chained-append :
    (h : Hashing) (n : ℕ) (before : String) (es : List Event) (s : Semantic)
    → Chained h n before es
    → eq_nat s.sequence (length es + n) ≡ true
    → Chained h n before (es ++ chained_event h s (hash_after before es) ∷ [])
unfolding hash_after
Chained-append h n before [] s c q = let e : 0 + n ≡ n = omega arith in (rw e at q, refl, refl, tt)
Chained-append h n before (e ∷ es) s c q =
    let e' : suc (length es) + n ≡ length es + (n + 1) = omega arith in
    (c.0, c.1, c.2, Chained-append h (n + 1) e.event_hash es s c.3 (rw e' at q))

pub find_event-append :
    (id : String) (es : List Event) (e : Event)
    → find_event id es ≡ none
    → find_event id (es ++ e ∷ []) ≡ (if str_eq e.event_id id then some e else none)
unfolding find_event
find_event-append id [] e h = refl
find_event-append id (f ∷ es) e h = ground (arith, find_event-append id es e)

DistinctIds-append :
    (es : List Event) (e : Event)
    → DistinctIds es
    → find_event e.event_id es ≡ none
    → DistinctIds (es ++ e ∷ [])
unfolding find_event
DistinctIds-append [] e d h = (refl, tt)
DistinctIds-append (f ∷ es) e d h = (
  ground (
    arith,
    find_event-append f.event_id es e d.0,
    eq_iff e.event_id f.event_id,
    eq_iff f.event_id e.event_id,
  ),
  DistinctIds-append es e d.1 (ground arith),
)

-- What an accepted append did.
pub data Appended (h : Hashing) (l l' : Ledger) (es : List Event) : Type 0 where
  repeated :
      (s : Semantic) (e : Event)
      → find_event s.event_id es ≡ some e
      → same_event e.semantic s ≡ true
      → l' ≡ l
      → Appended h l l' es
  extended :
      (s : Semantic)
      → find_event s.event_id es ≡ none
      → eq_nat s.sequence (length es + 1) ≡ true
      → l'
        ≡ record l { events = some (es ++ chain h es s ∷ []); tip_hash = (chain h es s).event_hash }
      → Appended h l l' es

pub place-Appended :
    (h : Hashing) (l : Ledger) (es : List Event) (s : Semantic) (o : Option Event) {l' : Ledger}
    → find_event s.event_id es ≡ o
    → place h l es s o ≡ ok l'
    → Appended h l l' es
unfolding place
place-Appended h l es s none f p = extended s f (ground arith) (ground arith)
place-Appended h l es s (some e) f p = repeated s e f (ground arith) (ground arith)

Appended-IsLedger :
    (h : Hashing) (l : Ledger) (es : List Event) {l' : Ledger}
    → IsLedger h l es
    → Appended h l l' es
    → (es' : List Event) × IsLedger h l' (es ++ es') × (length es' ≤ 1)
unfolding chain
Appended-IsLedger h l es i (repeated s e f same kept) =
    rw kept ([], rw (append-nil es) i, omega arith)
Appended-IsLedger h l es i (extended s f next made) = rw made (
  chain h es s ∷ [],
  record {
    events = refl;
    chained = rw (last_hash-hash_after es) (Chained-append h 1 "" es s i.chained next);
    distinct = DistinctIds-append es (chain h es s) i.distinct f;
    tip = sym (ap hash_of (last-append es (chain h es s)));
  },
  omega arith,
)

pub append-placed :
    (h : Hashing) (l : Ledger) (p : Fields) (es : List Event) {l' : Ledger}
    → l.events ≡ some es
    → append_message_event h l p ≡ ok l'
    → (s : Semantic) × (semantic_of h.runtime p ≡ ok s)
      × (place h l es s (find_event s.event_id es) ≡ ok l')
unfolding append_message_event
append-placed h l p es given q = elim (Bool-cases (is_text ledger_schema l.schema)) [
  | inl good ↦
      >>=-eq-ok (semantic_of h.runtime p) (λ s. place h l es s (find_event s.event_id es))
        (rw (good, given) at q)
  | inr bad ↦ absurd (ground arith)
]

-- Every accepted append keeps the ledger a chain: events numbered from 1, each holding the hash of
-- the one before and the digest of itself, no id twice, and the tip that of the last event.
pub append-IsLedger :
    (h : Hashing) (l : Ledger) (p : Fields) (es : List Event) {l' : Ledger}
    → IsLedger h l es
    → append_message_event h l p ≡ ok l'
    → (es' : List Event) × IsLedger h l' (es ++ es') × (length es' ≤ 1)
append-IsLedger h l p es i q =
    let (s, meant, placed) = append-placed h l p es i.events q in
    Appended-IsLedger h l es i (place-Appended h l es s _ refl placed)
