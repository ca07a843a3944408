-- ===== src/Store/Log/Retry.antt =====
-- log.rs: a batch that is tried again after its records have become known.
use editchain.Prelude.{◌≡◌, not, List, [], map, is_empty}
use editchain.Order.{Ord}
use editchain.Core.Admission.{OpSet, Admission}
use editchain.Store.Log.{Bytes, Plan}

module _ {μ} {K : Type μ} ⦃o : Ord K⦄ ⦃p : Ord Bytes⦄ where
  -- A plan for a batch that brings nothing: all duplicates, behind a fence.
  abbrev pub IsRepeat : OpSet K Bytes → List (K × Bytes) → Plan K → Type μ
  IsRepeat set ids plan =
      (plan.evidence ≡ set)
      × (plan.admissions ≡ map (λ entry. Admission.duplicate) ids)
      × (plan.pending ≡ [])
      × (plan.fence ≡ not (is_empty ids))
