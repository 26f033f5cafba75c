-- ===== src/Controller/WithIdler.antt =====
-- `ReconcileWithIdler`: one step of the loop for a workload that was found.
pub mod Laws
pub mod Outcomes
pub mod Deletion
pub mod Kept
pub mod Spared
pub mod Stable
pub mod Live
use Prim.Native.String.{◌++◌ as ◌<>◌}
use kidle.Prelude.{String, Bool, Option, none, some, if◌then◌else◌}
use kidle.Prelude.Int.{ℤ}
use kidle.Exec.{Error, errorf, Result, ok, err, Exec, pure, raise, lift, ◌>>=◌, ◌>>◌}
use kidle.Strconv.{itoa}
use kidle.Meta.{ObjectMeta}
use kidle.Api.{CrossVersionObjectReference, IdlingResource, is_being_deleted}
use kidle.Cluster.{Client}
use kidle.Idler.{Idler}
use kidle.Controller.State.{
  normal, warning, text, failure, Outcome, finished, World, Run, Libraries, on_error, with_idler,
  on_world, event, fail_with,
}
use kidle.Controller.Finalizer.{remove_finalizer}

-- The message after a wakeup; an idler of a CronJob returns no replicas.
abbrev pub woken : Option ℤ → String
woken none = "WakedUp"
woken (some replicas) = "Scaled to " <> itoa replicas

module _ {W O : Type 0} (client : Client W) (libraries : Libraries) (idler : Idler W O) where
  -- The branch of an instance that is being deleted, from its last step to the whole.
  unfoldable pub drop_finalizer : IdlingResource → Exec (Run W O) Outcome
  drop_finalizer instance = do
    on_error (on_world (remove_finalizer client libraries instance)) (
        fail_with "deleting finalizer" "Failed to delete finalizer" "error when deleting finalizer")
    event normal "Deleted" (text "Object finalizer is deleted")
    pure finished

  unfoldable pub disown : IdlingResource → Exec (Run W O) Outcome
  disown instance = do
    let ref = instance.spec.idling_resource_ref
    on_error (with_idler idler.remove_annotations) (
        fail_with "removing annotations" "Failed to remove annotations"
          "error when removing annotations")
    event normal "Deleted" (text ("Kidle annotations on " <> ref.kind <> " are deleted"))
    drop_finalizer instance

  unfoldable pub release : IdlingResource → Exec (Run W O) Outcome
  release instance = do
    let ref = instance.spec.idling_resource_ref
    replicas ← on_error (with_idler idler.wakeup) (
        fail_with ("Restoring" <> ref.kind) ("Failed to restore " <> ref.kind <> " " <> ref.name)
          "error during restoring")
    event normal ("Scaling" <> ref.kind) (text (woken replicas))
    disown instance

  unfoldable pub wake : IdlingResource → Exec (Run W O) Outcome
  wake instance = do
    let ref = instance.spec.idling_resource_ref
    replicas ← on_error (with_idler idler.wakeup) (
        fail_with ("Scaling" <> ref.kind) ("Failed to wake up " <> ref.kind <> " " <> ref.name)
          "error during waking up")
    event normal ("Scaling" <> ref.kind) (text (woken replicas))
    pure finished

  unfoldable pub put_to_sleep : IdlingResource → Exec (Run W O) Outcome
  put_to_sleep instance = do
    let ref = instance.spec.idling_resource_ref
    on_error (with_idler idler.idle) (
        fail_with ("Scaling" <> ref.kind) ("Failed to idle " <> ref.kind <> " " <> ref.name)
          "error during idling")
    event normal ("Scaling" <> ref.kind) (text "Scaled to 0")
    pure finished

  -- The branches of an instance that is not being deleted.
  unfoldable pub follow : IdlingResource → Exec (Run W O) Outcome
  follow instance = do
    sleeps ← λ run. (idler.need_wakeup instance run.object, run)
    if sleeps then wake instance else do
      runs ← λ run. (idler.need_idle instance run.object, run)
      if runs then put_to_sleep instance else pure finished

  -- `ReconcileWithIdler`
  unfoldable pub reconcile_with_idler : IdlingResource → Exec (Run W O) Outcome
  unfolding release disown drop_finalizer follow wake put_to_sleep
  reconcile_with_idler instance = do
    on_error (with_idler (idler.set_reference instance.meta.name))
        (λ e. raise (errorf "error during adding annotation" e))
    if is_being_deleted instance then release instance else follow instance
