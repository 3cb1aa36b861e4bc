-- ===== src/CompletenessStore/Strict.antt =====
-- What the tests of `audit_parent` in completeness_store.py ask of a certificate, of a scan and of
-- two scans, as conditions.
use discord_context_bridge.CompletenessStore.ScopeReceipts.{has_key}
use discord_context_bridge.CompletenessStore.Verified.{
  all_terminal, authorized, scan_complete, verified, receipt_value, same_receipt, same_kind,
  digest_match,
}
use discord_context_bridge.CompletenessStore.Audit.{strict_full, is_strict, is_empty_list}
use discord_context_bridge.CompletenessStore.{
  Certificate, String, Runtime, Scan, List, scopes_of_kind, archived_private, str_eq,
}
use discord_context_bridge.Shared.{
  true, false, none, some, [], ◌∷◌, str, bool, null, int, float, obj, arr, nil, cons, inl, inr,
  Value, Option, ◌≡◌, ◌↔◌, is_empty, eq_iff, refl, ◌<◌, arith, Fields, String, Runtime, List,
  is_true, All, is_nil, Bool-cases, str_eq, ap, all,
}

-- A certificate of the full capture of its thread.
abbrev pub IsStrict : Certificate → Type 0
IsStrict c =
    (c.status ≡ "full")
    × (c.gate_schema ≡ "discord_full_capture_completion_gate.v1")
    × (c.full_capture_confirmed ≡ true)
    × (is_empty c.capture_id ≡ false)
    × (0 < c.message_count)
    × (c.unresolved_gap_count ≡ 0)
    × (c.attachments_consistent ≡ true)
    × (c.attachment_discovered_count ≡ c.attachment_saved_count)
    × (c.attachment_saved_count ≡ c.attachment_manifested_count)
    × (c.pending_retry_count ≡ 0)
    × (c.blockers ≡ arr nil)

empty_list : (v : Value) → is_empty_list v ≡ true → v ≡ arr nil
empty_list (arr nil) h = refl
empty_list (arr (cons w ws)) h = cc
empty_list (str s) h = cc
empty_list (bool b) h = cc
empty_list null h = cc
empty_list (int n) h = cc
empty_list (float x) h = cc
empty_list (obj fs) h = cc

pub strict_full-IsStrict : (c : Certificate) → (strict_full c ≡ true) ↔ IsStrict c
unfolding strict_full
strict_full-IsStrict c =
    let status = eq_iff c.status "full" in
    let schema = eq_iff c.gate_schema "discord_full_capture_completion_gate.v1" in
    (
      λ h. (
        ground arith,
        ground arith,
        ground arith,
        ground arith,
        ground arith,
        ground arith,
        ground arith,
        ground arith,
        ground arith,
        ground arith,
        empty_list c.blockers (ground arith),
      ),
      λ h. rw h.10 (ground arith),
    )

-- The thread has such a certificate.
abbrev pub HasStrict : Option Certificate → Type 0
HasStrict none = ⊥
HasStrict (some c) = IsStrict c

pub is_strict-HasStrict : (o : Option Certificate) → (is_strict o ≡ true) ↔ HasStrict o
is_strict-HasStrict none = (λ h. cc, λ h. absurd h)
is_strict-HasStrict (some c) = strict_full-IsStrict c

-- The receipt of a required scope was read back and reached its end.
abbrev pub IsTerminal : Fields → String → Type 0
IsTerminal receipts scope =
    (has_key scope receipts ≡ true)
    × (is_true (receipt_value scope "terminal_reached" receipts) ≡ true)

-- A scan that was read back as valid and reconciled, of a channel of a known kind, with every
-- required scope at its end, and with the authorization for the private threads of a text channel.
abbrev pub IsComplete : Runtime → Scan → Type 0
IsComplete rt s =
    ((verified rt s).valid ≡ true)
    × (is_nil (scopes_of_kind s.parent_kind) ≡ false)
    × All (IsTerminal (verified rt s).receipts) (scopes_of_kind s.parent_kind)
    × (s.parent_kind ≡ some "text"
        → is_true
            (receipt_value archived_private "authorization_confirmed" (verified rt s).receipts)
          ≡ true)

all_terminal-All :
    (receipts : Fields) (scopes : List String)
    → (all_terminal scopes receipts ≡ true) ↔ All (IsTerminal receipts) scopes
all_terminal-All receipts [] = (λ h. tt, λ h. refl)
all_terminal-All receipts (scope ∷ scopes) =
    let (there, back) = all_terminal-All receipts scopes in
    (
      λ h. ((ground arith, ground arith), there (ground arith)),
      λ h. let (first, last) = h.0 in ground (arith, back h.1),
    )

authorized_iff :
    (kind : Option String) (receipts : Fields)
    → (authorized kind receipts ≡ true) ↔ (
        kind ≡ some "text"
        → is_true (receipt_value archived_private "authorization_confirmed" receipts) ≡ true)
authorized_iff none receipts = (λ h e. cc, λ h. refl)
authorized_iff (some kind) receipts = (
  λ h e. ground (arith, eq_iff kind "text"),
  λ h. elim (Bool-cases (str_eq kind "text")) [
    | inl text ↦ let known = h (ap (λ k. some k) ((eq_iff kind "text").0 text)) in ground arith
    | inr other ↦ ground arith
  ],
)

pub scan_complete-IsComplete :
    (rt : Runtime) (s : Scan) → (scan_complete rt s ≡ true) ↔ IsComplete rt s
unfolding scan_complete
scan_complete-IsComplete rt s =
    let receipts = (verified rt s).receipts in
    let terminal = all_terminal-All receipts (scopes_of_kind s.parent_kind) in
    let permitted = authorized_iff s.parent_kind receipts in
    (
      λ h. (ground arith, ground arith, terminal.0 (ground arith), permitted.0 (ground arith)),
      λ h.
          let all_there = terminal.1 h.2 in
          let may_read = permitted.1 h.3 in ground (arith, h.0, h.1),
    )

-- Two scans that agree in the digest and the count of their threads, in all and in every required
-- scope.
abbrev pub IsSameInventory : Runtime → Scan → Scan → Type 0
IsSameInventory rt s t =
    (s.thread_set_digest ≡ t.thread_set_digest)
    × (s.thread_count ≡ t.thread_count)
    × (s.parent_kind ≡ t.parent_kind)
    × (is_nil (scopes_of_kind s.parent_kind) ≡ false)
    × (all (same_receipt (verified rt s).receipts (verified rt t).receipts)
          (scopes_of_kind s.parent_kind)
        ≡ true)

same_kind_iff : (k l : Option String) → (same_kind k l ≡ true) ↔ (k ≡ l)
same_kind_iff none none = (λ h. refl, λ h. refl)
same_kind_iff none (some l) = (λ h. cc, λ h. cc)
same_kind_iff (some k) none = (λ h. cc, λ h. cc)
same_kind_iff (some k) (some l) =
    let (there, back) = eq_iff k l in (λ h. ap (λ w. some w) (there h), λ h. back (cc h))

pub digest_match-IsSameInventory :
    (rt : Runtime) (s t : Scan) → (digest_match rt s t ≡ true) ↔ IsSameInventory rt s t
unfolding digest_match
digest_match-IsSameInventory rt s t =
    let digests = eq_iff s.thread_set_digest t.thread_set_digest in
    let kinds = same_kind_iff s.parent_kind t.parent_kind in
    (
      λ h. (
        digests.0 (ground arith),
        ground arith,
        kinds.0 (ground arith),
        ground arith,
        ground arith,
      ),
      λ h. let same = kinds.1 h.2 in let one = digests.1 h.0 in ground (arith, h.1, h.3, h.4),
    )
