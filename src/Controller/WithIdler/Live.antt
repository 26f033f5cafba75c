-- ===== src/Controller/WithIdler/Live.antt =====
-- A run of `ReconcileWithIdler` under an API server that is up.
use kidle.Prelude.{◌≡◌, refl, ◌∙◌, Bool, true, false}
use kidle.Exec.{ok}
use kidle.Meta.{MetaObject}
use kidle.Api.{IdlingResource, is_being_deleted}
use kidle.Cluster.{Cluster, Client, Slot}
use kidle.Idler.{Idler}
use kidle.Idler.Contract.{IsIdler}
use kidle.Idler.Live.{IsLive}
use kidle.Idler.Change.{Local}
use kidle.Idler.Change.Updated.{IsCurrent, Updated-IsCurrent}
use kidle.Controller.State.{finished, Run, Libraries, local_of}
use kidle.Controller.WithIdler.{wake, put_to_sleep, follow, reconcile_with_idler}
use kidle.Controller.WithIdler.Outcomes.{Followed, reconcile_with_idler-Followed}

module _ {W O : Type 0} {view : W → Cluster} {slot : Slot O} {object : MetaObject O}
    (client : Client W) (libraries : Libraries) {idler : Idler W O} {Asleep Awake : O → Type 0}
    (contract : IsIdler view slot object idler Asleep Awake) {Sound : O → Type 0} {Up : W → Type 0}
    (live : IsLive view slot object idler Sound Up) where
  follow_returns_at :
      (instance : IdlingResource) (run : Run W O) (wakes idles : Bool)
      → idler.need_wakeup instance run.object ≡ ok wakes
      → idler.need_idle instance run.object ≡ ok idles
      → IsCurrent view slot object (local_of run)
      → Up run.world.cluster
      → Sound run.object
      → (after : Run W O) × (follow client libraries idler instance run ≡ (ok finished, after))
  unfolding follow wake put_to_sleep
  follow_returns_at instance run true idles g h current up sound =
      let (p, t, woke) = live.wakeup_returns (local_of run) current up sound in
      ((follow client libraries idler instance run).1, rw (g, woke) refl)
  follow_returns_at instance run false true g h current up sound =
      let (t, slept) = live.idle_returns (local_of run) current up sound in
      ((follow client libraries idler instance run).1, rw (g, h, slept) refl)
  follow_returns_at instance run false false g h current up sound = (run, rw (g, h) refl)

  follow_returns :
      (instance : IdlingResource) (run : Run W O)
      → IsCurrent view slot object (local_of run)
      → Up run.world.cluster
      → Sound run.object
      → (after : Run W O) × (follow client libraries idler instance run ≡ (ok finished, after))
  follow_returns instance run current up sound =
      let (wakes, g) = live.need_wakeup_returns instance run.object sound in
      let (idles, h) = live.need_idle_returns instance run.object sound in
      follow_returns_at instance run wakes idles g h current up sound

  run_of : Run W O → Local W O → Run W O
  run_of run l = record { object = l.object; world = record (run.world) { cluster = l.cluster } }

  reconcile_with_idler_first :
      (instance : IdlingResource) (run : Run W O) (t : Local W O)
      → is_being_deleted instance ≡ false
      → idler.set_reference instance.meta.name (local_of run) ≡ (ok tt, t)
      → reconcile_with_idler client libraries idler instance run
        ≡ follow client libraries idler instance (run_of run t)
  unfolding reconcile_with_idler run_of
  reconcile_with_idler_first instance run t lives set = rw (set, lives) refl

  -- A run on a stored object on which the methods do not fail by themselves, for an instance that
  -- is not being deleted and under an API server that is up, succeeds, and leaves the workload
  -- stored in the state that the instance asks for, referenced, and the only object that has
  -- changed.
  pub reconcile_with_idler_returns :
      (instance : IdlingResource) (run : Run W O)
      → is_being_deleted instance ≡ false
      → IsCurrent view slot object (local_of run)
      → Up run.world.cluster
      → Sound run.object
      → (after : Run W O) × (reconcile_with_idler client libraries idler instance run
          ≡ (ok finished, after))
        × Followed client libraries contract instance run after
  unfolding run_of
  reconcile_with_idler_returns instance run lives current up sound =
      let (t, set, sound_after, up_after) =
        live.set_reference_returns instance.meta.name (local_of run) current up sound in
      let (moved, _) =
        contract.set_reference-ok instance.meta.name (local_of run) t tt current set in
      let (after, rest) =
        follow_returns instance (run_of run t) (Updated-IsCurrent view slot object moved) up_after
          sound_after in
      let whole = reconcile_with_idler_first instance run t lives set ∙ rest in
      (
        after,
        whole,
        reconcile_with_idler-Followed client libraries contract instance run after finished lives
            current whole,
      )
