-- ===== src/Idler/Object/Live.antt =====
-- `SetReference` under an API server that is up.
use kidle.Prelude.{String, ◌≡◌, refl, Bool, true, false, ◌⊎◌, inl, inr, arith}
use kidle.Exec.{ok}
use kidle.Meta.{MetaObject, has_annotation}
use kidle.Api.{metadata_idling_resource_reference}
use kidle.Cluster.{Cluster, ObjectClient, Slot, IsLawful}
use kidle.Cluster.Responsive.{IsResponsive}
use kidle.Cluster.Retry.{RetryOnConflict, IsRetry}
use kidle.Idler.Change.{Local}
use kidle.Idler.Change.Live.{change_succeeds}
use kidle.Idler.Change.Updated.{IsCurrent}
use kidle.Idler.Object.{set_reference, referenced}
use kidle.Idler.Object.Laws.{referenced_keeps}

module _ {W O : Type 0} {view : W → Cluster} {slot : Slot O} {object : MetaObject O}
    {c : ObjectClient W O} {Up : W → Type 0} (law : IsLawful view slot object c)
    (responsive : IsResponsive view slot object c Up) {retry : RetryOnConflict}
    (retries : IsRetry retry) where
  -- The object is as it was, or it has the reference.
  abbrev pub Referenced : String → O → O → Type 0
  Referenced name o n = (n ≡ o) ⊎ (referenced object name o ≡ ok n)

  set_reference_succeeds_at :
      (name : String) (s : Local W O) (has : Bool)
      → has_annotation (object.meta s.object) metadata_idling_resource_reference ≡ has
      → IsCurrent view slot object s
      → Up s.cluster
      → (t : Local W O) × (set_reference object c retry name s ≡ (ok tt, t))
        × Referenced name s.object t.object
        × Up t.cluster
  unfolding set_reference referenced
  set_reference_succeeds_at name s true g current up = (s, ground arith, inl refl, up)
  set_reference_succeeds_at name s false g current up =
      let (t, run, made, still) =
        change_succeeds law responsive retries (referenced object name)
          (referenced_keeps law retries name) s _ current up refl in
      (t, ground arith, inr (rw made refl), still)

  pub set_reference_succeeds :
      (name : String) (s : Local W O)
      → IsCurrent view slot object s
      → Up s.cluster
      → (t : Local W O) × (set_reference object c retry name s ≡ (ok tt, t))
        × Referenced name s.object t.object
        × Up t.cluster
  set_reference_succeeds name s = set_reference_succeeds_at name s _ refl
