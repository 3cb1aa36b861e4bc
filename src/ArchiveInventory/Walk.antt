-- ===== src/ArchiveInventory/Walk.antt =====
-- The pages that an enumeration reads, described by themselves: a walk from cursor to cursor.
use discord_context_bridge.ArchiveInventory.{
  Fetch, List, String, Page, ℕ, contains, enumerate_from, Dict, Option, Bool, Fields, page_of,
  Enumeration, collect, enumeration, next_cursor, length, archive_scopes, enumerate_archive_pages,
  ltb, new_cursor,
}
use discord_context_bridge.Shared.{
  true, false, none, some, [], ◌∷◌, ok, zero, suc, inl, inr, List, String, contains, ℕ, ◌≡◌, Dict,
  Option, Bool, Fields, ◌+◌, refl, arith, length, >>=-eq-ok, ◌≤◌, Bool-cases, ◌⊎◌, eq_iff, eq_refl,
  ◌<◌, ltb,
}

-- A walk from the n-th call at a cursor: its pages, the cursors that it follows and whether it got
-- to a last page.
pub data Walk (fetch : Fetch) (scope : String)
    : ℕ → Option String → List Page → List String → Bool → Type 0 where
  cut : {n : ℕ} {c : Option String} → Walk fetch scope n c [] [] false
  last_page :
      {n : ℕ} {c : Option String} (p : Page)
      → page_of (fetch n c) ≡ ok p
      → p.has_more ≡ false
      → Walk fetch scope n c (p ∷ []) [] true
  more :
      {n : ℕ} {c : Option String} (p : Page) (d : String) {ps : List Page} {ds : List String}
      {exhausted : Bool}
      → page_of (fetch n c) ≡ ok p
      → p.has_more ≡ true
      → next_cursor scope p ≡ ok d
      → Walk fetch scope (n + 1) (some d) ps ds exhausted
      → Walk fetch scope n c (p ∷ ps) (d ∷ ds) exhausted

-- All threads of the pages, the last record of each id.
unfoldable pub collect_pages : List Page → Dict Fields → Dict Fields
collect_pages [] threads = threads
collect_pages (p ∷ ps) threads = collect_pages ps (collect p.threads threads)

abbrev pub FreshFrom : List String → List String → Type 0
FreshFrom seen [] = Unit
FreshFrom seen (d ∷ ds) = (contains d seen ≡ false) × FreshFrom (d ∷ seen) ds

-- What a result rests on: a walk of its pages, no more of them than allowed, all of them if it did
-- not get to the end, no cursor followed twice, and the threads of all pages.
pub record Walked (fetch : Fetch) (scope : String) (left n : ℕ) (c : Option String)
    (seen : List String) (threads : Dict Fields) (e : Enumeration) (ps : List Page)
    (ds : List String) : Type 0 where
  pub walk : Walk fetch scope n c ps ds e.pagination_exhausted
  pub counted : e.pages ≡ n + length ps
  pub bounded : length ps ≤ left
  pub complete : (e.pagination_exhausted ≡ true) ⊎ (length ps ≡ left)
  pub fresh : FreshFrom seen ds
  pub collected : e.threads ≡ collect_pages ps threads
  pub in_scope : e.scope ≡ scope

module _ (fetch : Fetch) (scope : String) where
  done-Walked :
      (left n : ℕ) (c : Option String) (seen : List String) (threads : Dict Fields) (p : Page)
      → page_of (fetch n c) ≡ ok p
      → p.has_more ≡ false
      → Walked fetch scope
          (suc left)
          n
          c
          seen
          threads
          (enumeration scope (n + 1) true c (collect p.threads threads))
          (p ∷ [])
          []
  unfolding collect_pages
  done-Walked left n c seen threads p got done = record {
    walk = last_page p got done;
    counted = omega arith;
    bounded = omega arith;
    complete = inl refl;
    fresh = tt;
    collected = refl;
    in_scope = refl;
  }

  more-Walked :
      (left n : ℕ) (c : Option String) (seen : List String) (threads : Dict Fields) (p : Page)
      (d : String) (e : Enumeration) (ps : List Page) (ds : List String)
      → page_of (fetch n c) ≡ ok p
      → p.has_more ≡ true
      → next_cursor scope p ≡ ok d
      → contains d seen ≡ false
      → Walked fetch scope left (n + 1) (some d) (d ∷ seen) (collect p.threads threads) e ps ds
      → Walked fetch scope (suc left) n c seen threads e (p ∷ ps) (d ∷ ds)
  unfolding collect_pages
  more-Walked left n c seen threads p d e ps ds got again at_d new w = record {
    walk = more p d got again at_d w.walk;
    counted = omega (arith, w.counted);
    bounded = omega (arith, w.bounded);
    complete = ground (arith, w.complete);
    fresh = (new, w.fresh);
    collected = w.collected;
    in_scope = w.in_scope;
  }

  new_cursor-ok :
      (c : Option String) (seen : List String) (d d' : String)
      → new_cursor c seen d ≡ ok d'
      → (d' ≡ d) × (contains d seen ≡ false)
  unfolding new_cursor
  new_cursor-ok c seen d d' h = ground arith

  enumerate_from-Walked :
      (left n : ℕ) (c : Option String) (seen : List String) (threads : Dict Fields)
      {e : Enumeration}
      → enumerate_from fetch scope left n c seen threads ≡ ok e
      → (ps : List Page) × (ds : List String) × Walked fetch scope left n c seen threads e ps ds
  unfolding enumerate_from collect_pages
  enumerate_from-Walked zero n c seen threads {e} h =
      let made : e ≡ enumeration scope n false c threads = ground arith in
      rw made (
        [],
        [],
        record {
          walk = cut;
          counted = omega arith;
          bounded = omega arith;
          complete = inr refl;
          fresh = tt;
          collected = refl;
          in_scope = refl;
        },
      )
  enumerate_from-Walked (suc left) n c seen threads {e} h =
      let (p, got, rest) = >>=-eq-ok (page_of (fetch n c)) _ h in
      elim (Bool-cases p.has_more) [
        | inr done ↦
            let made : e ≡ enumeration scope (n + 1) true c (collect p.threads threads) =
              ground (arith, rw done at rest) in
            rw made (p ∷ [], [], done-Walked left n c seen threads p got done)
        | inl again ↦
            let (d, at_d, rest') = >>=-eq-ok (next_cursor scope p) _ (rw again at rest) in
            let (d', at_new, rest2) = >>=-eq-ok (new_cursor c seen d) _ rest' in
            let (same, new) = new_cursor-ok c seen d d' at_new in
            let (ps, ds, w) =
              enumerate_from-Walked left (n + 1) (some d) (d ∷ seen) (collect p.threads threads)
                {e = e} (rw same at rest2) in
            (p ∷ ps, d ∷ ds, more-Walked left n c seen threads p d e ps ds got again at_d new w)
      ]

  abbrev KnownIn : Option String → List String → Type 0
  KnownIn none seen = Unit
  KnownIn (some c) seen = contains c seen ≡ true

  new_cursor_known :
      (c : Option String) (d : String) (seen : List String)
      → KnownIn c seen
      → contains d seen ≡ false
      → new_cursor c seen d ≡ ok d
  unfolding new_cursor
  new_cursor_known none d seen known new = ground arith
  new_cursor_known (some c) d seen known new = ground (arith, eq_iff d c)

  Walk-enumerates :
      (left n : ℕ) (c : Option String) (seen : List String) (threads : Dict Fields) (ps : List Page)
      (ds : List String) (b : Bool)
      → Walk fetch scope n c ps ds b
      → b ≡ true
      → FreshFrom seen ds
      → KnownIn c seen
      → length ps ≤ left
      → (t : Option String) × (enumerate_from fetch scope left n c seen threads
          ≡ ok (enumeration scope (n + length ps) true t (collect_pages ps threads)))
  unfolding enumerate_from collect_pages
  Walk-enumerates left n c seen threads ps ds b cut ended fresh known few = cc
  Walk-enumerates zero n c seen threads ps ds b (last_page p got done) ended fresh known few =
      absurd (omega arith)
  Walk-enumerates (suc left) n c seen threads ps ds b (last_page p got done) ended fresh known few =
      (c, rw got (rw done refl))
  Walk-enumerates zero n c seen threads ps ds b (more p d got again at_d rest) ended fresh known
        few =
      absurd (omega arith)
  Walk-enumerates (suc left) n c seen threads _ _ b (more p d {ps} {ds} got again at_d rest) ended
        fresh known few =
      let (t, rec) =
        Walk-enumerates left (n + 1) (some d) (d ∷ seen) (collect p.threads threads) ps ds b rest
          ended fresh.1 (ground (arith, eq_refl d)) (omega arith) in
      (
        t,
        rw got (
            rw again (
              rw at_d (
                rw (new_cursor_known c d seen known fresh.0)
                  (let e : n + 1 + length ps ≡ n + suc (length ps) = omega arith in rw e at rec)))),
      )

-- An enumeration that returns has walked the pages from cursor to cursor: it reports as many pages
-- as it fetched, at most the bound, it reports exhaustion exactly with a last page and otherwise
-- used up the bound, it followed no cursor twice, and it holds the last record of each thread of
-- all its pages.
pub enumerate-Walked :
    (fetch : Fetch) (scope : String) (max_pages : ℕ) {e : Enumeration}
    → enumerate_archive_pages fetch scope max_pages ≡ ok e
    → (ps : List Page) × (ds : List String) × Walked fetch scope max_pages 0 none [] [] e ps ds
unfolding enumerate_archive_pages
enumerate-Walked fetch scope max_pages h = elim (Bool-cases (contains scope archive_scopes)) [
  | inl known ↦ (elim (Bool-cases (ltb max_pages 1)) [
    | inl none_allowed ↦ absurd (ground (arith, rw (known, none_allowed) at h))
    | inr allowed ↦
        enumerate_from-Walked fetch scope max_pages 0 none [] [] (rw (known, allowed) at h)
  ])
  | inr unknown ↦ absurd (ground (arith, rw unknown at h))
]

-- Every walk to a last page that follows no cursor twice is found, within any bound that it keeps:
-- the enumeration returns, reports exhaustion and holds the threads of exactly these pages.
pub Walk-exhausts :
    (fetch : Fetch) (scope : String) (max_pages : ℕ) (ps : List Page) (ds : List String)
    → contains scope archive_scopes ≡ true
    → 0 < max_pages
    → Walk fetch scope 0 none ps ds true
    → FreshFrom [] ds
    → length ps ≤ max_pages
    → (t : Option String) × (enumerate_archive_pages fetch scope max_pages
        ≡ ok (enumeration scope (length ps) true t (collect_pages ps [])))
unfolding enumerate_archive_pages
Walk-exhausts fetch scope max_pages ps ds known allowed walk fresh few =
    let some_page : ltb max_pages 1 ≡ false = ground arith in
    let (t, found) =
      Walk-enumerates fetch scope max_pages 0 none [] [] ps ds true walk refl fresh tt few in
    (t, rw (known, some_page) (let e : 0 + length ps ≡ length ps = omega arith in rw e at found))
