-- ===== src/Controller/WithIdler/Stable.antt =====
-- A run of `ReconcileWithIdler` after one that has succeeded.
use kidle.Prelude.{◌≡◌, refl, true, false, some, String}
use kidle.Exec.{ok}
use kidle.Meta.{MetaObject, get_annotation}
use kidle.Api.{IdlingResource, is_being_deleted, metadata_idling_resource_reference}
use kidle.Cluster.{Cluster, Client, Slot}
use kidle.Idler.{Idler}
use kidle.Idler.Contract.{IsIdler}
use kidle.Controller.State.{Outcome, finished, Run, Libraries, local_of}
use kidle.Controller.WithIdler.{follow, reconcile_with_idler}
use kidle.Idler.Change.Updated.{IsCurrent}
use kidle.Controller.WithIdler.Outcomes.{reconcile_with_idler-Followed}

module _ {W O : Type 0} {view : W → Cluster} {slot : Slot O} {object : MetaObject O}
    (client : Client W) (libraries : Libraries) {idler : Idler W O} {Asleep Awake : O → Type 0}
    (contract : IsIdler view slot object idler Asleep Awake) where
  -- A run whose object has a reference and needs neither of the two methods changes nothing, and
  -- emits no event.
  rests :
      (instance : IdlingResource) (run : Run W O) (v : String)
      → is_being_deleted instance ≡ false
      → get_annotation (object.meta run.object) metadata_idling_resource_reference ≡ some v
      → idler.need_wakeup instance run.object ≡ ok false
      → idler.need_idle instance run.object ≡ ok false
      → reconcile_with_idler client libraries idler instance run ≡ (ok finished, run)
  unfolding reconcile_with_idler follow
  rests instance run v lives has g h =
      rw (contract.set_reference_again instance.meta.name v (local_of run) has, lives, g, h) refl

  -- After a run that succeeds for an instance that is not being deleted and asks to idle, another
  -- one for it succeeds, and changes neither the cluster nor the events.
  pub reconcile_with_idler_again :
      (instance : IdlingResource) (run after : Run W O) (out : Outcome)
      → is_being_deleted instance ≡ false
      → instance.spec.idle ≡ true
      → IsCurrent view slot object (local_of run)
      → reconcile_with_idler client libraries idler instance run ≡ (ok out, after)
      → reconcile_with_idler client libraries idler instance after ≡ (ok finished, after)
  reconcile_with_idler_again instance run after out lives idle current e =
      let done =
        reconcile_with_idler-Followed client libraries contract instance run after out lives current
          e in
      rests instance after _ lives done.referenced_by
        (contract.idle_not_woken instance after.object idle)
        (contract.asleep_rests instance after.object (rw idle at done.state))
