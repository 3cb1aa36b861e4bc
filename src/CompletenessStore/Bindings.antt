-- ===== src/CompletenessStore/Bindings.antt =====
-- What holds of the tables of completeness_store.py after every recording and every audit.
use discord_context_bridge.CompletenessStore.Recording.{
  upsert, same_child, bound_elsewhere, same_scan, ids_of,
}
use discord_context_bridge.CompletenessStore.{Certificate, Scan, Store, contains, digest_ids}
use discord_context_bridge.Shared.{
  true, false, [], ◌∷◌, inl, inr, Bool, List, Runtime, Bool-cases, ◌≡◌, any, All, contains, arith,
  IsDistinct, ◌∙◌, ◌++◌, refl, ◌==◌, ◌||◌, eq_iff, ◌<◌, length, is_empty,
}

module _ {ℓ} {A : Type ℓ} where
  -- The test holds of no two entries, the earlier one first.
  abbrev pub Once : (A → A → Bool) → List A → Type 0
  Once r [] = Unit
  Once r (x ∷ xs) = (any (r x) xs ≡ false) × Once r xs

  any-append : (p : A → Bool) (xs ys : List A) → any p (xs ++ ys) ≡ (any p xs || any p ys)
  any-append p [] ys = refl
  any-append p (x ∷ xs) ys = ground (arith, any-append p xs ys)

  pub Once-append :
      (r : A → A → Bool) (xs : List A) (y : A)
      → Once r xs
      → any (λ x. r x y) xs ≡ false
      → Once r (xs ++ y ∷ [])
  Once-append r [] y h apart = (refl, tt)
  Once-append r (x ∷ xs) y h apart =
      (ground (arith, any-append (r x) xs (y ∷ []), h.0), Once-append r xs y h.1 (ground arith))

  pub All-append : (P : A → Type 0) (xs : List A) (y : A) → All P xs → P y → All P (xs ++ y ∷ [])
  All-append P [] y h last = (last, tt)
  All-append P (x ∷ xs) y h last = (h.0, All-append P xs y h.1 last)

  pub All-map : (P Q : A → Type 0) (xs : List A) → ((x : A) → P x → Q x) → All P xs → All Q xs
  All-map P Q [] f h = tt
  All-map P Q (x ∷ xs) f h = (f x h.0, All-map P Q xs f h.1)

abbrev pub same_key : Certificate → Certificate → Bool
same_key c = same_child c.parent_target_key c.thread_id

abbrev pub one_capture : Certificate → Certificate → Bool
one_capture c = bound_elsewhere c.parent_target_key c.capture_id c.thread_id

abbrev pub same_scan_key : Scan → Scan → Bool
same_scan_key s = same_scan s.parent_target_key s.scan_id

abbrev pub IsStored : Runtime → Scan → Type 0
IsStored rt s =
    IsDistinct (ids_of s.threads)
    × (s.thread_count ≡ length s.threads)
    × (s.thread_set_digest ≡ digest_ids rt (ids_of s.threads))

-- Every scan and certificate is of a known parent; a scan id stands once for a parent, and a row
-- id once; a scan has the count and the digest of its threads, none twice; a thread has one
-- certificate, and a capture id of a parent is bound to one thread.
pub record IsValid (rt : Runtime) (store : Store) : Type 0 where
  pub scan_parents :
      All (λ s. contains s.parent_target_key store.parent_targets ≡ true) store.inventory_scans
  pub scans_once : Once same_scan_key store.inventory_scans
  pub row_ids_once : Once (λ s t. s.id == t.id) store.inventory_scans
  pub row_ids_below : All (λ s. s.id < store.next_scan) store.inventory_scans
  pub scans_stored : All (IsStored rt) store.inventory_scans
  pub certificate_parents :
      All (λ c. contains c.parent_target_key store.parent_targets ≡ true) store.certificates
  pub children_once : Once same_key store.certificates
  pub captures_once : Once one_capture store.certificates
  pub captures_given : All (λ c. is_empty c.capture_id ≡ false) store.certificates

any-upsert :
    (p : Certificate → Bool) (c : Certificate) (cs : List Certificate)
    → p c ≡ false
    → any p cs ≡ false
    → any p (upsert c cs) ≡ false
unfolding upsert
any-upsert p c [] own h = ground arith
any-upsert p c (d ∷ ds) own h = ground (arith, any-upsert p c ds own)

pub All-upsert :
    (P : Certificate → Type 0) (c : Certificate) (cs : List Certificate)
    → P c
    → All P cs
    → All P (upsert c cs)
unfolding upsert
All-upsert P c [] own h = (own, tt)
All-upsert P c (d ∷ ds) own h = elim (Bool-cases (same_key c d)) [
  | inl same ↦ rw same (own, h.1)
  | inr other ↦ rw other (h.0, All-upsert P c ds own h.1)
]

same_key-sym : (c d : Certificate) → same_key c d ≡ same_key d c
same_key-sym c d = ground (
  arith,
  eq_iff c.parent_target_key d.parent_target_key,
  eq_iff d.parent_target_key c.parent_target_key,
  eq_iff c.thread_id d.thread_id,
  eq_iff d.thread_id c.thread_id,
)

one_capture-sym : (c d : Certificate) → one_capture c d ≡ one_capture d c
one_capture-sym c d = ground (
  arith,
  eq_iff c.parent_target_key d.parent_target_key,
  eq_iff d.parent_target_key c.parent_target_key,
  eq_iff c.thread_id d.thread_id,
  eq_iff d.thread_id c.thread_id,
  eq_iff c.capture_id d.capture_id,
  eq_iff d.capture_id c.capture_id,
)

same_key-path : (c d e : Certificate) → same_key c d ≡ true → same_key c e ≡ same_key d e
same_key-path c d e h =
    ground (arith, eq_iff c.parent_target_key d.parent_target_key, eq_iff c.thread_id d.thread_id)

any-path :
    (p q : Certificate → Bool) (cs : List Certificate)
    → ((e : Certificate) → p e ≡ q e)
    → any p cs ≡ any q cs
any-path p q [] same = refl
any-path p q (c ∷ cs) same = cc (same c, any-path p q cs same)

pub children_apart-upsert :
    (c : Certificate) (cs : List Certificate) → Once same_key cs → Once same_key (upsert c cs)
unfolding upsert
children_apart-upsert c [] h = (refl, tt)
children_apart-upsert c (d ∷ ds) h = elim (Bool-cases (same_key c d)) [
  | inl same ↦
      rw same (any-path (same_key c) (same_key d) ds (λ e. same_key-path c d e same) ∙ h.0, h.1)
  | inr other ↦
      rw other (
        any-upsert (same_key d) c ds (same_key-sym d c ∙ other) h.0,
        children_apart-upsert c ds h.1,
      )
]

pub captures_apart-upsert :
    (c : Certificate) (cs : List Certificate)
    → any (one_capture c) cs ≡ false
    → Once one_capture cs
    → Once one_capture (upsert c cs)
unfolding upsert
captures_apart-upsert c [] new h = (refl, tt)
captures_apart-upsert c (d ∷ ds) new h =
    elim (Bool-cases (same_child c.parent_target_key c.thread_id d)) [
      | inl same ↦ rw same (ground arith, h.1)
      | inr other ↦ rw other (
        any-upsert (one_capture d) c ds (one_capture-sym d c ∙ ground arith) h.0,
        captures_apart-upsert c ds (ground arith) h.1,
      )
    ]
