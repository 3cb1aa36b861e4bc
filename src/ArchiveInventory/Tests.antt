-- ===== src/ArchiveInventory/Tests.antt =====
-- An enumeration of two pages on concrete answers, and the theorems at it.
use discord_context_bridge.Shared.{
  true, false, none, some, [], ◌∷◌, ok, err, str, bool, obj, arr, end, field, nil, cons, zero, suc,
  List, String, lookup, ◌≡◌, Option, arith, insert, Fields, Bool, sorted_set, Value, refl,
}
use discord_context_bridge.ArchiveInventory.{
  cursor_for, thread_of, threads_of, page_of, collect, next_cursor, new_cursor, enumerate_from,
  enumerate_archive_pages, enumeration_blockers, scope_reports, report_blockers,
  build_public_report, Fetch, Page, enumeration, Enumeration, List, String, Option, cursor_loop,
  Bool, insert, Fields, sorted_set, Value,
}
use discord_context_bridge.ArchiveInventory.Walk.{
  Walk, last_page, more, Walked, collect_pages, enumerate-Walked, Walk-exhausts,
}

program : Unit {0}
unfolding cursor_for thread_of threads_of page_of collect next_cursor new_cursor enumerate_from
    enumerate_archive_pages enumeration_blockers scope_reports report_blockers build_public_report
    collect_pages lookup insert sorted_set
program = tt

abbrev thread : String → Fields
thread id =
    field "id" (str id)
      (field "thread_metadata" (obj (field "archive_timestamp" (str "2026-01-01") end)) end)

abbrev page : String → Bool → Value
page id others =
    obj (field "threads" (arr (cons (obj (thread id)) nil)) (field "has_more" (bool others) end))

abbrev fetch : Fetch
fetch zero c = some (page "t1" true)
fetch (suc n) c = some (page "t2" false)

abbrev first : Page
first = record { threads = ("t1", thread "t1") ∷ []; has_more = true }

abbrev second : Page
second = record { threads = ("t2", thread "t2") ∷ []; has_more = false }

abbrev both : Enumeration
both =
    enumeration "public" 2 true (some "2026-01-01") (("t1", thread "t1") ∷ ("t2", thread "t2") ∷ [])

enumerated : enumerate_archive_pages fetch "public" 5 ≡ ok both
unfolding program
enumerated = refl

page_limit :
    enumerate_archive_pages fetch "public" 1
    ≡ ok (enumeration "public" 1 false (some "2026-01-01") (("t1", thread "t1") ∷ []))
unfolding program
page_limit = refl

cursor_loop_found :
    enumerate_archive_pages (λ n c. some (page "t1" true)) "public" 5 ≡ err cursor_loop
unfolding program
cursor_loop_found = refl

-- A scope that is enumerated twice: the later result alone decides on the status.
partial_then_complete :
    (build_public_report
      (enumeration "public" 1 false none [] ∷ enumeration "public" 1 true none [] ∷ [])).complete
    ≡ true
unfolding program
partial_then_complete = refl

two_pages : Walk fetch "public" 0 none (first ∷ second ∷ []) ("2026-01-01" ∷ []) true
unfolding program
two_pages = more first "2026-01-01" refl refl refl (last_page second refl refl)

enumerate-Walked_example :
    (ps : List Page) × (ds : List String) × Walked fetch "public" 5 0 none [] [] both ps ds
enumerate-Walked_example = enumerate-Walked fetch "public" 5 enumerated

Walk-exhausts_example :
    (t : Option String) × (enumerate_archive_pages fetch "public" 5
      ≡ ok (enumeration "public" 2 true t (collect_pages (first ∷ second ∷ []) [])))
Walk-exhausts_example =
    Walk-exhausts fetch "public" 5 (first ∷ second ∷ []) ("2026-01-01" ∷ []) refl (omega arith)
      two_pages (refl, tt) (omega arith)
