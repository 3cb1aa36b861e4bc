-- ===== src/Capture/ParallelCloseout/Tested.antt =====
-- The tests of capture/parallel_closeout.py on an item of a run, and what its files say if they pass.
use discord_context_bridge.Capture.ParallelCloseout.Items.{
  IsReady, IsReceipt, IsLine, AnyOf, mapping_value_iff, valid_ready-IsReady,
  valid_receipt-IsReceipt, IsReceipt-valid_receipt, matches-IsLine, any-AnyOf,
}
use discord_context_bridge.Capture.ParallelCloseout.Evaluation.{has_receipt}
use discord_context_bridge.Capture.ParallelCloseout.Evidence.{
  has_ready, has_ledger, has_hashes, is_without_text, valid_receipt_of, text_bound,
}
use discord_context_bridge.Capture.ParallelCloseout.{
  Hashed, String, Fields, get, is_text, mapping_value, valid_receipt, RunDir, is_digest, Bool,
  ledger_matches_receipt, not,
}
use discord_context_bridge.Shared.{
  true, false, none, some, str, obj, inl, inr, Option, List, ℕ, Fields, String, ◌≡◌, get, is_text,
  ◌↔◌, refl, arith, eq_iff, Bool, ◌&&◌, Option-cases, any, Bool-cases, not, and_six, subst, sym,
  ◌∙◌, ◌≢◌, ap, is_some,
}

-- The files prove the item: a ready file, the receipt of a commit, a line of the ledger for it, and
-- a ready file and a text with the digests of the receipt.
abbrev pub IsItem : Hashed → RunDir → List Fields → ℕ × ℕ → Type 0
IsItem h dir rows b =
    ((fs : Fields) × (dir.ready b.0 b.1 ≡ some (obj fs)) × IsReady h b.0 b.1 fs)
    × ((ready_digest : String) × (text_digest : String) × (r : Fields) × (dir.receipt b.0 b.1
          ≡ some (obj r))
        × IsReceipt h b.0 b.1 ready_digest text_digest r
        × (dir.ready_hash b.0 b.1 ≡ some ready_digest)
        × (dir.text_hash b.0 b.1 ≡ some text_digest)
        × AnyOf (IsLine h b.0 b.1 ready_digest text_digest) rows)

-- The tests of the code on an item.
abbrev pub item_tested : Hashed → RunDir → List Fields → ℕ × ℕ → Bool
item_tested h dir rows b =
    has_ready h dir b
    && has_receipt h dir b
    && has_ledger h dir rows b
    && has_hashes h dir b
    && not (is_without_text h dir b)

has_ready-IsReady :
    (h : Hashed) (dir : RunDir) (b : ℕ × ℕ)
    → (has_ready h dir b ≡ true)
      ↔ ((fs : Fields) × (dir.ready b.0 b.1 ≡ some (obj fs)) × IsReady h b.0 b.1 fs)
unfolding has_ready
has_ready-IsReady h dir b = elim (Option-cases (mapping_value (dir.ready b.0 b.1))) [
  | inl missing ↦ rw missing (
    λ t. absurd (cc t),
    λ p. absurd (cc (missing, (mapping_value_iff (dir.ready b.0 b.1) p.0).1 p.1)),
  )
  | inr (fs, found) ↦ rw found (
    λ t. (
      fs,
      (mapping_value_iff (dir.ready b.0 b.1) fs).0 found,
      (valid_ready-IsReady h b.0 b.1 fs).0 t,
    ),
    λ p.
        let same : fs ≡ p.0 = cc (found, (mapping_value_iff (dir.ready b.0 b.1) p.0).1 p.1) in
        rw same ((valid_ready-IsReady h b.0 b.1 p.0).1 p.2),
  )
]

is_digest_iff : (o : Option String) (s : String) → (is_digest o (str s) ≡ true) ↔ (o ≡ some s)
is_digest_iff none s = (λ h. absurd (cc h), λ h. absurd (cc h))
is_digest_iff (some t) s = (λ h. ground (arith, eq_iff t s), λ h. ground (arith, eq_iff t s))

receipt-found :
    (h : Hashed) (dir : RunDir) (b : ℕ × ℕ) (r : Fields)
    → dir.receipt b.0 b.1 ≡ some (obj r)
    → valid_receipt h b.0 b.1 r ≡ true
    → valid_receipt_of h dir b ≡ some r
unfolding valid_receipt_of
receipt-found h dir b r given valid =
    rw ((mapping_value_iff (dir.receipt b.0 b.1) r).1 given, valid) refl

found-receipt :
    (h : Hashed) (dir : RunDir) (b : ℕ × ℕ) (r : Fields)
    → valid_receipt_of h dir b ≡ some r
    → (dir.receipt b.0 b.1 ≡ some (obj r)) × (valid_receipt h b.0 b.1 r ≡ true)
unfolding valid_receipt_of
found-receipt h dir b r found = elim (Option-cases (mapping_value (dir.receipt b.0 b.1))) [
  | inl missing ↦ absurd (cc (rw missing at found))
  | inr (q, given) ↦
      let tested = rw given at found in
      elim (Bool-cases (valid_receipt h b.0 b.1 q)) [
        | inl valid ↦
            let same : q ≡ r = cc (rw valid at tested) in
            (
              (mapping_value_iff (dir.receipt b.0 b.1) r).0 (given ∙ ap (λ w. some w) same),
              subst (λ w. valid_receipt h b.0 b.1 w ≡ true) same valid,
            )
        | inr invalid ↦ absurd (cc (rw invalid at tested))
      ]
]

-- The tests of the code on an item whose receipt is known.
abbrev tested_with : Hashed → RunDir → List Fields → ℕ × ℕ → Fields → Bool
tested_with h dir rows b r =
    has_ready h dir b
    && any (ledger_matches_receipt h b.0 b.1 r) rows
    && is_digest (dir.ready_hash b.0 b.1) (get "ready_sha256" r)
    && text_bound dir b r
    && not (is_text "recorded_without_text" (get "commit_state" r))

pub not-true : (b : Bool) → not b ≡ true → b ≡ false
not-true b h = ground arith

pub five :
    (a b c d e : Bool)
    → (a && b && c && d && e) ≡ true
    → (a ≡ true) × (b ≡ true) × (c ≡ true) × (d ≡ true) × (e ≡ true)
five a b c d e h = let t = and_six true a b c d e h in (t.1, t.2, t.3, t.4, t.5)

untested :
    (h : Hashed) (dir : RunDir) (rows : List Fields) (b : ℕ × ℕ)
    → valid_receipt_of h dir b ≡ none
    → item_tested h dir rows b ≢ true
untested h dir rows b missing tested =
    let t =
      five (has_ready h dir b) (has_receipt h dir b) (has_ledger h dir rows b) (has_hashes h dir b)
        (not (is_without_text h dir b)) tested in
    absurd (cc (ap is_some missing, t.1))

ledger-found :
    (h : Hashed) (dir : RunDir) (rows : List Fields) (b : ℕ × ℕ) (r : Fields)
    → valid_receipt_of h dir b ≡ some r
    → has_ledger h dir rows b ≡ any (ledger_matches_receipt h b.0 b.1 r) rows
unfolding has_ledger
ledger-found h dir rows b r found = rw (found, has_ledger) refl

hashes-found :
    (h : Hashed) (dir : RunDir) (b : ℕ × ℕ) (r : Fields)
    → valid_receipt_of h dir b ≡ some r
    → has_hashes h dir b ≡ (
        has_ready h dir b
        && is_digest (dir.ready_hash b.0 b.1) (get "ready_sha256" r)
        && text_bound dir b r)
unfolding has_hashes
hashes-found h dir b r found = rw (found, has_hashes) refl

text-found :
    (h : Hashed) (dir : RunDir) (b : ℕ × ℕ) (r : Fields)
    → valid_receipt_of h dir b ≡ some r
    → is_without_text h dir b ≡ is_text "recorded_without_text" (get "commit_state" r)
unfolding is_without_text
text-found h dir b r found = rw (found, is_without_text) refl

once : (a b c d e : Bool) → (a && true && b && (a && c && d) && e) ≡ (a && b && c && d && e)
once a b c d e = ground arith

tested-found :
    (h : Hashed) (dir : RunDir) (rows : List Fields) (b : ℕ × ℕ) (r : Fields)
    → valid_receipt_of h dir b ≡ some r
    → item_tested h dir rows b ≡ tested_with h dir rows b r
tested-found h dir rows b r found =
    let receipt : has_receipt h dir b ≡ true = ap is_some found in
    let ledger = ledger-found h dir rows b r found in
    let hashes = hashes-found h dir b r found in
    let text = text-found h dir b r found in
    rw (receipt, ledger, hashes, text)
      (once (has_ready h dir b) (any (ledger_matches_receipt h b.0 b.1 r) rows)
        (is_digest (dir.ready_hash b.0 b.1) (get "ready_sha256" r)) (text_bound dir b r)
        (not (is_text "recorded_without_text" (get "commit_state" r))))

text_bound_iff :
    (dir : RunDir) (b : ℕ × ℕ) (r : Fields) (text_digest : String)
    → get "commit_state" r ≡ str "committed"
    → get "text_sha256" r ≡ str text_digest
    → (text_bound dir b r ≡ true) ↔ (dir.text_hash b.0 b.1 ≡ some text_digest)
text_bound_iff dir b r text_digest committed at_text =
    rw (committed, at_text) (is_digest_iff (dir.text_hash b.0 b.1) text_digest)

tested-IsItem :
    (h : Hashed) (dir : RunDir) (rows : List Fields) (b : ℕ × ℕ) (r : Fields)
    → valid_receipt_of h dir b ≡ some r
    → tested_with h dir rows b r ≡ true
    → IsItem h dir rows b
tested-IsItem h dir rows b r found tested =
    let t = five _ _ _ _ _ tested in
    let (given, valid) = found-receipt h dir b r found in
    let (rd, td, p) = valid_receipt-IsReceipt h b.0 b.1 r valid (not-true _ t.4) in
    let hashed : is_digest (dir.ready_hash b.0 b.1) (str rd) ≡ true =
      subst (λ w. is_digest (dir.ready_hash b.0 b.1) w ≡ true) p.5 t.2 in
    let line =
      any-AnyOf (ledger_matches_receipt h b.0 b.1 r) (IsLine h b.0 b.1 rd td) rows
        (λ line. matches-IsLine h b.0 b.1 rd td r line p) in
    (
      (has_ready-IsReady h dir b).0 t.0,
      (
        rd,
        td,
        r,
        given,
        p,
        (is_digest_iff (dir.ready_hash b.0 b.1) rd).0 hashed,
        (text_bound_iff dir b r td p.2 p.6).0 t.3,
        line.0 t.1,
      ),
    )

IsItem-tested :
    (h : Hashed) (dir : RunDir) (rows : List Fields) (b : ℕ × ℕ)
    → IsItem h dir rows b
    → item_tested h dir rows b ≡ true
IsItem-tested h dir rows b (has_it, (rd, td, r, given, p, at_ready, at_text, logged)) =
    let (valid, with_text) = IsReceipt-valid_receipt h b.0 b.1 rd td r p in
    let found = receipt-found h dir b r given valid in
    let ready = (has_ready-IsReady h dir b).1 has_it in
    let line =
      (any-AnyOf (ledger_matches_receipt h b.0 b.1 r) (IsLine h b.0 b.1 rd td) rows
          (λ line. matches-IsLine h b.0 b.1 rd td r line p)).1
        logged in
    let hashed : is_digest (dir.ready_hash b.0 b.1) (get "ready_sha256" r) ≡ true =
      subst (λ w. is_digest (dir.ready_hash b.0 b.1) w ≡ true) (sym p.5)
        ((is_digest_iff (dir.ready_hash b.0 b.1) rd).1 at_ready) in
    let text = (text_bound_iff dir b r td p.2 p.6).1 at_text in
    tested-found h dir rows b r found ∙ cc (ready, line, hashed, text, with_text)

-- The tests of the code on an item pass exactly if its files prove it.
pub item_tested-IsItem :
    (h : Hashed) (dir : RunDir) (rows : List Fields) (b : ℕ × ℕ)
    → (item_tested h dir rows b ≡ true) ↔ IsItem h dir rows b
item_tested-IsItem h dir rows b = (
  λ tested. elim (Option-cases (valid_receipt_of h dir b)) [
    | inl missing ↦ absurd (untested h dir rows b missing tested)
    | inr (r, found) ↦
        tested-IsItem h dir rows b r found (sym (tested-found h dir rows b r found) ∙ tested)
  ],
  IsItem-tested h dir rows b,
)
