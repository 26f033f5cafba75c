-- ===== src/Idler/Live.antt =====
-- What the reconcile loop needs of an idler to come to an end with success.
use kidle.Prelude.{String, ◌≡◌, Bool, Option}
use kidle.Prelude.Int.{ℤ}
use kidle.Exec.{ok}
use kidle.Meta.{MetaObject}
use kidle.Api.{IdlingResource}
use kidle.Cluster.{Cluster, Slot}
use kidle.Idler.{Idler}
use kidle.Idler.Change.{Local}
use kidle.Idler.Change.Updated.{IsCurrent}

-- `Sound` is the objects on which the methods do not fail by themselves, and `Up` the states of the
-- server in which it answers. A run of the loop calls `SetReference` and then one method at most.
pub record IsLive {W O : Type 0} (view : W → Cluster) (slot : Slot O) (object : MetaObject O)
    (i : Idler W O) (Sound : O → Type 0) (Up : W → Type 0) : Type 0 where
  pub set_reference_returns :
      (name : String) (s : Local W O)
      → IsCurrent view slot object s
      → Up s.cluster
      → Sound s.object
      → (t : Local W O) × (i.set_reference name s ≡ (ok tt, t)) × Sound t.object × Up t.cluster
  pub need_idle_returns :
      (instance : IdlingResource) (o : O) → Sound o → (b : Bool) × (i.need_idle instance o ≡ ok b)
  pub need_wakeup_returns :
      (instance : IdlingResource) (o : O) → Sound o → (b : Bool) × (i.need_wakeup instance o ≡ ok b)
  pub idle_returns :
      (s : Local W O)
      → IsCurrent view slot object s
      → Up s.cluster
      → Sound s.object
      → (t : Local W O) × (i.idle s ≡ (ok tt, t))
  pub wakeup_returns :
      (s : Local W O)
      → IsCurrent view slot object s
      → Up s.cluster
      → Sound s.object
      → (p : Option ℤ) × (t : Local W O) × (i.wakeup s ≡ (ok p, t))
