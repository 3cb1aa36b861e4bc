-- ===== src/Lib.antt =====
-- Discord Context Bridge: the capture core.
--
-- The program saves Discord threads for reading, and its central promise is negative: a capture is
-- reported as full only if it can be shown to be. A run is a state machine that takes events
-- (src/discord_context_bridge/capture/orchestrator.py). The loop drives it, bounds the scan passes
-- and makes closing receipts (capture/loop.py). Identifier lists of the raw, the Markdown and the
-- ledger copy of a thread are compared (capture/reconcile.py), and the gate says full, partial or
-- blocked (full_capture.py); the event with which the machine closes as full carries the result of
-- the gate. The message ledger keeps the events of messages (capture/message_ledger.py). The
-- acquisition gate accepts a receipt of a full capture before a context is summarised
-- (acquisition_gate.py). The completeness store keeps the inventories of a parent channel and the
-- certificates of its threads, and its audit tells whether all of them are captured
-- (completeness_store.py); the closeout of a parallel run asks for that audit
-- (capture/parallel_closeout.py).
--
-- Files, with paths of the code from src/discord_context_bridge:
--   Shared              what the parts share: results of calls that raise, JSON values and dicts,
--                       `str.strip` and `str.lower`, sorted sets, framed digests, blocker tables
--   AcquisitionGate     acquisition_gate.py. Identity: the identity of a capture attempt;
--                       Receipts, Strict: the strict validator of full capture receipts;
--                       Coverage, Ready: the gate before a summary
--   Capture/Orchestrator capture/orchestrator.py: new_capture_run, advance_capture_run and the
--                       checkpoints. Children prove what checkpoints record, how runs complete,
--                       close and recover
--   Capture/Loop        capture/loop.py: the loop state, the status projection (Status), the
--                       observed-full receipts (Receipts, Observed and, for the texts they must
--                       not have, Claims) and the scan budget (Budget)
--   Capture/Reconcile   capture/reconcile.py: build_reconciliation_evidence
--   FullCapture         full_capture.py: the route policy, the recomputation from bound evidence
--                       and evaluate_full_capture
--   Capture/MessageLedger capture/message_ledger.py: new_message_ledger, append_message_event, the
--                       reduction of a ledger to messages (Reduction), the projections and the
--                       evidence that they give to the gate (Projections)
--   Capture/VirtualScroll capture/virtual_scroll.py: the merge of windows (Merge) and their order
--                       (Ordering)
--   Capture/StableOrder the topological order that the two modules before it use. Degrees, Edges,
--                       Heap, Remaining and Order hold its lemmas, Promise what they come to
--   Capture/ParallelCloseout capture/parallel_closeout.py: what a run directory proves (Evidence),
--                       its evaluation (Evaluation) and the receipts that end a run (Receipts);
--                       Items, Tested and Stopped say what its tests mean of the files, Complete and
--                       Proven what closes a run; Example is a run for the tests
--   TargetRegistry      target_registry.py: resolve_target, register_target and safe_target_label
--   ArchiveInventory    archive_inventory.py: enumerate_archive_pages and the public report; Scopes:
--                       build_active_filtered_result and build_scope_receipts_inventory
--   CompletenessStore   completeness_store.py: the tables, the scope receipts (ScopeReceipts), the two
--                       recordings (Recording), the evidence that an audit reads back (Verified),
--                       audit_parent (Audit, ParentCertificate). Reachable holds the invariant of
--                       the tables, Closeout the audit as the closeout of a run reads it, and
--                       Accepted what an accepted audit tells of such a store
--   UrlIdentity         url_identity.py: the pattern of a URL, its ids (RoundTrip) and
--                       classify_discord_url (Resolution)
--
-- A function that raises returns `Result`, and the errors of a module are a data type. A payload
-- from outside is a JSON value, `Value`, with Python's truth value, equality and `str` of it; a
-- mapping keeps its order, and a write to a known key keeps its place. A mapping that one function
-- makes and owns is a record. `sorted(set(...))` is the sorted list without repetitions. A counter
-- is a native number; Python's integers have no bound, so nothing wraps around.
--
-- Parameters. `Runtime` stands for the standard library where the code only hands a text or a
-- value over: sha256 of the code points of a text, and `str` of a float or a container. A theorem
-- that compares digests names the two texts that would have to collide instead of assuming that
-- none do. `Hashing` adds the digest of the JSON text of a ledger event, and `ViewHashing` those of
-- the projections; `Hashed` is that of the JSON text of a mapping, and `int` of a text that `isdigit`
-- accepts. The fetch of a page of threads is a function from a cursor. A float is what `int`, `bool`
-- and `==` see of it. `Clock` is `datetime.fromisoformat` as `_parse_time` and `_normalized_time` use
-- it, and `isoformat`. The validator of registry entries, a third-party schema check, is a function
-- into Bool.
--
-- The completeness store. A table of the SQLite file is the list of its rows, and a call that raises
-- leaves the tables as they were, since its transaction is rolled back. A count that is negative or
-- does not fit the 64 bits of a column is refused. `Host` adds `int` of a text to
-- `Runtime` and `Clock`. A column of JSON text is the value that it is loaded to: the code loads only
-- what it wrote, or what stood there before, which is NULL, no JSON or a JSON value. One theorem
-- assumes of sha256 that it returns 64 hexadecimal digits.
--
-- Fuel. The order of messages runs on as much fuel as there are ids, since every id is taken out of
-- the heap at most once, and the components of windows on as much as there are windows, since a
-- window is on the stack at most once. The enumeration of an archive is a recursion on the bound of
-- pages that the code has, and the segments of a URL on the number that its pattern has. Every other
-- loop of the modelled code is a recursion on a list.
--
-- Not modelled: files, locks and processes (capture/store.py, capture/service.py, credentials.py, the
-- persistence of a closeout), the command line and the MCP server, the reports of core.py, the
-- topics (topic_classification.py), the projections of knowledge, and the readers of the desktop
-- cache. Constant keys of results, such as `"outbound_actions": "disabled"`, are left out where no
-- other part reads them.
pub mod Shared
pub mod AcquisitionGate
pub mod FullCapture
pub mod Capture
pub mod TargetRegistry
pub mod ArchiveInventory
pub mod UrlIdentity
pub mod CompletenessStore
