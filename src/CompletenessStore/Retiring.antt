-- ===== src/CompletenessStore/Retiring.antt =====
-- What `_retire_absent_certificates` of completeness_store.py leaves.
use discord_context_bridge.CompletenessStore.Verified.{stable, latest_scans}
use discord_context_bridge.CompletenessStore.{Store, Certificate, Bool, str_eq, contains}
use discord_context_bridge.CompletenessStore.ParentCertificate.{audit_parent}
use discord_context_bridge.CompletenessStore.Audit.{
  kept_certificates, retire_absent_certificates, retired_rows, certificate_of, retires, latest_ids,
}
use discord_context_bridge.Shared.{
  true, false, none, [], ◌∷◌, Runtime, String, List, ◌≡◌, Bool, length, any, if◌then◌else◌, str_eq,
  ◌+◌, ◌&&◌, arith, refl, not, contains, eq_iff,
}

-- No certificate that is kept would be retired.
pub any-retires-kept :
    (key : String) (latest : List String) (cs : List Certificate)
    → any (retires key latest) (kept_certificates key latest cs) ≡ false
unfolding kept_certificates
any-retires-kept key latest [] = refl
any-retires-kept key latest (c ∷ cs) = ground (arith, any-retires-kept key latest cs)

pub certificate_of-kept :
    (key : String) (latest : List String) (j id : String) (cs : List Certificate)
    → certificate_of j id (kept_certificates key latest cs)
      ≡ (if str_eq j key && not (contains id latest) then none else certificate_of j id cs)
unfolding kept_certificates certificate_of
certificate_of-kept key latest j id [] = ground arith
certificate_of-kept key latest j id (c ∷ cs) = ground (
  arith,
  certificate_of-kept key latest j id cs,
  eq_iff j key,
  eq_iff key j,
  eq_iff j c.parent_target_key,
  eq_iff key c.parent_target_key,
  eq_iff id c.thread_id,
)

length-kept :
    (key : String) (latest : List String) (cs : List Certificate)
    → length (kept_certificates key latest cs) + length (retired_rows key latest cs) ≡ length cs
unfolding kept_certificates retired_rows
length-kept key latest [] = refl
length-kept key latest (c ∷ cs) = ground (arith, length-kept key latest cs)

abbrev pub retirement_due : Runtime → String → Store → String → String → Bool
retirement_due rt key store j id =
    stable rt (latest_scans key store)
    && (str_eq j key && not (contains id (latest_ids (latest_scans key store))))

pub certificate_of-audit_parent :
    (rt : Runtime) (key : String) (store : Store) (j id : String)
    → certificate_of j id (audit_parent rt key store).1.certificates
      ≡ (if retirement_due rt key store j id then none else certificate_of j id store.certificates)
unfolding audit_parent retire_absent_certificates
certificate_of-audit_parent rt key store j id =
    elim (stable rt (latest_scans key store))
      as (λ b.
        certificate_of j id
          (retire_absent_certificates key (latest_ids (latest_scans key store)) b
            store).certificates
        ≡ (if b && (str_eq j key && not (contains id (latest_ids (latest_scans key store))))
            then none
            else certificate_of j id store.certificates)) [
              | true ↦
                  certificate_of-kept key (latest_ids (latest_scans key store)) j id
                    store.certificates
              | false ↦ refl
            ]
