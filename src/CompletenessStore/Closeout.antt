-- ===== src/CompletenessStore/Closeout.antt =====
-- The audit of completeness_store.py as `_parent_is_full` of capture/parallel_closeout.py reads it.
use discord_context_bridge.CompletenessStore.{Certificate, Runtime, Store}
use discord_context_bridge.CompletenessStore.Verified.{latest_scans, by_recency}
use discord_context_bridge.CompletenessStore.Audit.{full_children, audit_checks}
use discord_context_bridge.CompletenessStore.Complete.{FullScans, FullScans-passes}
use discord_context_bridge.CompletenessStore.ParentCertificate.{
  certificate_fields, Audit, parent_certificate, audit_parent, audit_of, retire,
}
use discord_context_bridge.Capture.ParallelCloseout.Evaluation.{parent_blocker}
use discord_context_bridge.Shared.{
  true, false, none, some, [], ◌∷◌, ◌≡◌, if◌then◌else◌, is_nil, arith, Bool, ◌==◌, String, str_eq,
  List, refl, ◌≤◌, Runtime, length, ◌↔◌, is_nil-dedupe, failed,
}

status-is-full :
    (full none_left : Bool)
    → (str_eq (if full then "full" else if none_left then "blocked" else "partial") "full" ≡ full)
      × (str_eq "full" (if full then "full" else if none_left then "blocked" else "partial") ≡ full)
status-is-full true none_left = (refl, refl)
status-is-full false true = (refl, refl)
status-is-full false false = (refl, refl)

certificate-read :
    (a : Audit)
    → parent_blocker (some (certificate_fields a))
      ≡ (if is_nil a.blockers then none else some "parent_completeness_not_full")
unfolding parent_blocker certificate_fields
certificate-read a =
    let (left, right) = status-is-full (is_nil a.blockers) (a.scan_count == 0) in
    ground (arith, left, right)

-- The closeout of a parallel run accepts the certificate of an audit just when the two latest scans
-- are complete and agree in the digests and the counts of their threads, and every thread of the
-- latest has a strict certificate of full capture.
pub parent_blocker-audit_parent :
    (rt : Runtime) (key : String) (store : Store)
    → (parent_blocker (some (parent_certificate rt key store)) ≡ none)
      ↔ FullScans rt key store.certificates (latest_scans key store)
unfolding parent_certificate audit_parent audit_of latest_scans
parent_blocker-audit_parent rt key store =
    let scans = latest_scans key store in
    let checks = audit_checks rt key scans (retire rt key scans store).certificates in
    let (there, back) = FullScans-passes rt key (by_recency key store.inventory_scans) store in
    let read = certificate-read (audit_parent rt key store).0 in
    let once = is_nil-dedupe (failed checks) in
    (λ h. there (ground arith), λ h. let all_pass = back h in ground arith)

-- No more threads are full than the latest inventory has.
full_children-bounded :
    (key : String) (cs : List Certificate) (ids : List String)
    → full_children key cs ids ≤ length ids
unfolding full_children
full_children-bounded key cs [] = omega arith
full_children-bounded key cs (id ∷ ids) = ground (arith, full_children-bounded key cs ids)
