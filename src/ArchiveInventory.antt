-- ===== src/ArchiveInventory.antt =====
-- archive_inventory.py: the enumeration of archived threads by pages, and the report on it. The
-- function that fetches a page is a parameter: its answer to the n-th call, for a cursor, or
-- nothing if it raises. The writing of the inventory to files is left out.
use discord_context_bridge.Shared.{
  true, false, none, some, [], ◌∷◌, ok, err, str, bool, null, int, float, obj, arr, end, field, nil,
  cons, pos, negsuc, zero, suc, inl, inr, ℕ, Option, List, Value, String, Dict, get, Bool, insert,
  not, ◌++◌, Result, if◌then◌else◌, Fields, as_sequence, is_nil, ◌&&◌, last, contains, str_eq,
  ◌>>=◌, length, is_empty, ◌>>◌, sorted_set, ltb, ◌+◌, ◌||◌,
}
pub mod Walk
pub mod Scopes
mod Tests

pub data ArchiveError : Type 0 where
  fetch_raised scope_invalid max_pages_invalid response_invalid threads_invalid : ArchiveError
  has_more_invalid thread_invalid thread_id_missing empty_page : ArchiveError
  cursor_missing cursor_loop : ArchiveError

-- The answer to the n-th call, for a cursor.
abbrev pub Fetch : Type 0
Fetch = ℕ → Option String → Option Value

abbrev pub archive_scopes : List String
archive_scopes = "public" ∷ "private" ∷ "joined_private" ∷ []

abbrev joined_private : String
joined_private = "joined_private"

-- `isinstance(value, str) and value`
abbrev pub text_value : Value → Option String
text_value (str s) = if is_empty s then none else some s
text_value _ = none

-- `metadata.get(key) if isinstance(metadata, Mapping) else None`
abbrev pub key_of : String → Value → Value
key_of key (obj fs) = get key fs
key_of key _ = null

-- `_cursor_for`
unfoldable pub cursor_for : String → Fields → Option String
cursor_for scope thread =
    if str_eq scope joined_private
    then text_value (get "id" thread)
    else text_value (key_of "archive_timestamp" (get "thread_metadata" thread))

-- A page: its threads by their ids, and whether more follow.
pub record Page : Type 0 where
  pub threads : List (String × Fields)
  pub has_more : Bool

abbrev thread_with : Option String → Fields → Result ArchiveError (String × Fields)
thread_with none fs = err thread_id_missing
thread_with (some id) fs = ok (id, fs)

unfoldable pub thread_of : Value → Result ArchiveError (String × Fields)
thread_of (obj fs) = thread_with (text_value (get "id" fs)) fs
thread_of _ = err thread_invalid

unfoldable pub threads_of : List Value → Result ArchiveError (List (String × Fields))
threads_of [] = ok []
threads_of (v ∷ vs) = do t ← thread_of v; ts ← threads_of vs; ok (t ∷ ts)

abbrev page_with : Option (List Value) → Value → Result ArchiveError Page
page_with none more = err threads_invalid
page_with (some vs) (bool more) = do
  ts ← threads_of vs
  ok (record { threads = ts; has_more = more })
page_with (some vs) _ = err has_more_invalid

-- The checks on what was fetched.
unfoldable pub page_of : Option Value → Result ArchiveError Page
page_of none = err fetch_raised
page_of (some (obj fs)) = page_with (as_sequence (get "threads" fs)) (get "has_more" fs)
page_of (some _) = err response_invalid

-- `threads[thread_id] = record`, for the threads of a page
unfoldable pub collect : List (String × Fields) → Dict Fields → Dict Fields
collect [] threads = threads
collect ((id, fs) ∷ ts) threads = collect ts (insert id fs threads)

abbrev next_with : Option (String × Fields) → String → Result ArchiveError String
next_with none scope = err empty_page
next_with (some (id, fs)) scope = elim (cursor_for scope fs) [
  | none ↦ err cursor_missing
  | some c ↦ ok c
]

-- The cursor after a page that others follow.
unfoldable pub next_cursor : String → Page → Result ArchiveError String
next_cursor scope p = next_with (last p.threads) scope

abbrev pub is_cursor : Option String → String → Bool
is_cursor none c = false
is_cursor (some d) c = str_eq c d

-- A cursor that was followed before is refused.
unfoldable pub new_cursor : Option String → List String → String → Result ArchiveError String
new_cursor cursor seen c = if is_cursor cursor c || contains c seen then err cursor_loop else ok c

pub record Enumeration : Type 0 where
  pub scope : String
  pub pages : ℕ
  pub pagination_exhausted : Bool
  pub terminal_cursor : Option String
  pub threads : Dict Fields

abbrev pub enumeration : String → ℕ → Bool → Option String → Dict Fields → Enumeration
enumeration scope pages exhausted cursor threads = record {
  scope = scope;
  pages = pages;
  pagination_exhausted = exhausted;
  terminal_cursor = cursor;
  threads = threads;
}

-- `while pages < max_pages`, by the number of pages that are left.
unfoldable pub enumerate_from :
    Fetch
    → String
    → ℕ
    → ℕ
    → Option String
    → List String
    → Dict Fields
    → Result ArchiveError Enumeration
enumerate_from fetch scope zero pages cursor seen threads =
    ok (enumeration scope pages false cursor threads)
enumerate_from fetch scope (suc left) pages cursor seen threads = do
  p ← page_of (fetch pages cursor)
  elim p.has_more [
    | false ↦ ok (enumeration scope (pages + 1) true cursor (collect p.threads threads))
    | true ↦ (do
      c ← next_cursor scope p
      d ← new_cursor cursor seen c
      enumerate_from fetch scope left (pages + 1) (some d) (d ∷ seen) (collect p.threads threads))
  ]

unfoldable pub enumerate_archive_pages : Fetch → String → ℕ → Result ArchiveError Enumeration
enumerate_archive_pages fetch scope max_pages =
    if not (contains scope archive_scopes)
    then err scope_invalid
    else if ltb max_pages 1
    then err max_pages_invalid
    else enumerate_from fetch scope max_pages 0 none [] []

unfoldable pub enumeration_blockers : Enumeration → List String
enumeration_blockers e =
    if e.pagination_exhausted then [] else "archive_pagination_page_limit_reached" ∷ []

-- What a report says of a scope.
pub record ScopeReport : Type 0 where
  pub page_count : ℕ
  pub thread_count : ℕ
  pub exhausted : Bool

pub record Report : Type 0 where
  pub scopes : Dict ScopeReport
  pub complete : Bool
  pub blockers : List String

unfoldable pub scope_reports : List Enumeration → Dict ScopeReport → Dict ScopeReport
scope_reports [] scopes = scopes
scope_reports (e ∷ es) scopes = scope_reports es (
    insert e.scope
      (record {
        page_count = e.pages;
        thread_count = length e.threads;
        exhausted = e.pagination_exhausted;
      })
      scopes)

abbrev pub all_exhausted : Dict ScopeReport → Bool
all_exhausted [] = true
all_exhausted ((scope, r) ∷ scopes) = r.exhausted && all_exhausted scopes

unfoldable pub report_blockers : List Enumeration → List String
report_blockers [] = []
report_blockers (e ∷ es) = enumeration_blockers e ++ report_blockers es

-- The report on the results of enumerations.
unfoldable pub build_public_report : List Enumeration → Report
build_public_report es =
    let scopes = scope_reports es [] in
    record {
      scopes = scopes;
      complete = not (is_nil scopes) && all_exhausted scopes;
      blockers = sorted_set (report_blockers es);
    }
