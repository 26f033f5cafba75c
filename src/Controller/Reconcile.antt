-- ===== src/Controller/Reconcile.antt =====
-- `Reconcile` and `reconcileResourceNotFound` of pkg/controllers/idlingresource_controller.go.
pub mod Laws
pub mod Kept
pub mod Spared
pub mod Whole
pub mod Stands
pub mod Every
pub mod Stays
pub mod Elsewhere
use Prim.Native.String.{◌++◌ as ◌<>◌}
use kidle.Prelude.{String, Bool, true, false, Option, none, some, ◌==◌, if◌then◌else◌}
use kidle.Exec.{
  Error, errorf, is_not_found, Result, ok, err, panic, Exec, pure, raise, lift, ◌>>=◌, ◌>>◌,
}
use kidle.Meta.{Key, ObjectMeta}
use kidle.Api.{
  CrossVersionObjectReference, IdlingResource, is_being_deleted, has_finalizer,
  idling_resource_finalizer_name,
}
use kidle.Cluster.{ObjectClient, Client}
use kidle.Idler.{Idler}
use kidle.Idler.Replicas.{new_deployment_idler, new_stateful_set_idler}
use kidle.Idler.CronJob.{new_cron_job_idler}
use kidle.Controller.State.{
  normal, text, Outcome, finished, World, Run, Libraries, calling, on_error, caught, record_event,
  fail_after_event,
}
use kidle.Controller.Finalizer.{add_finalizer, remove_finalizer}
use kidle.Controller.WithIdler.{reconcile_with_idler}
use kidle.Controller.CronStrategies.{reconcile_cron_strategies}
use kidle.Controller.CronStrategies.Values.{Settings}

-- The loop runs again in two seconds.
abbrev pub requeued : Outcome
requeued = record { requeue_after = 2 }

abbrev pub workload_key : IdlingResource → Key
workload_key instance = record {
  namespace = instance.meta.namespace;
  name = instance.spec.idling_resource_ref.name;
}

module _ {W : Type 0} (client : Client W) (libraries : Libraries) where
  -- `reconcileResourceNotFound`
  unfoldable pub reconcile_resource_not_found : IdlingResource → Error → Exec (World W) Outcome
  reconcile_resource_not_found instance e =
      if is_not_found e
      then (if is_being_deleted instance
          then (do
            on_error (remove_finalizer client libraries instance)
                (λ x. raise (errorf "error when deleting finalizer" x))
            pure finished)
          else pure requeued)
      else raise (errorf ("unable to read " <> instance.spec.idling_resource_ref.kind) e)

  -- A run for the workload that was read.
  answered :
      {O : Type 0} → Idler W O → IdlingResource → Result O × World W → Result Outcome × World W
  unfolding reconcile_resource_not_found
  answered idler instance (ok o, w) =
      let (r, run) =
        reconcile_with_idler client libraries idler instance (record { object = o; world = w }) in
      (r, run.world)
  answered idler instance (err e, w) = reconcile_resource_not_found instance e w
  answered idler instance (panic m, w) = (panic m, w)

  -- One case of the switch.
  unfoldable pub reconcile_workload :
      {O : Type 0} → ObjectClient W O → Idler W O → IdlingResource → Exec (World W) Outcome
  unfolding answered
  reconcile_workload c idler instance w =
      answered idler instance (calling (c.get (workload_key instance)) w)

  -- The switch on the kind.
  unfoldable pub dispatch : IdlingResource → Exec (World W) Outcome
  dispatch instance =
      let kind = instance.spec.idling_resource_ref.kind in
      let retry = libraries.retry_on_conflict in
      if kind == "Deployment"
      then reconcile_workload client.deployments (new_deployment_idler client retry) instance
      else if kind == "StatefulSet"
      then reconcile_workload client.stateful_sets (new_stateful_set_idler client retry) instance
      else if kind == "CronJob"
      then reconcile_workload client.cron_jobs (new_cron_job_idler client retry) instance
      else pure finished

  -- Returns the instance that the code goes on with.
  give_finalizer : IdlingResource → Exec (World W) IdlingResource
  give_finalizer instance = do
    changed ← on_error (add_finalizer client libraries instance) (
        fail_after_event "Adding finalizer" "Failed to add finalizer" "error when adding finalizer")
    record_event normal "Added" (text "Object finalizer is added")
    pure changed

  pub with_finalizer : IdlingResource → Exec (World W) IdlingResource
  unfolding give_finalizer
  with_finalizer instance =
      if has_finalizer instance idling_resource_finalizer_name
      then pure instance
      else give_finalizer instance

  -- `Reconcile` after the read of the instance.
  unfoldable pub reconcile_found : Settings → IdlingResource → Exec (World W) Outcome
  unfolding with_finalizer
  reconcile_found settings read = do
    instance ← with_finalizer read
    reconcile_cron_strategies client settings instance
    dispatch instance

  after_read : Settings → Result IdlingResource → Exec (World W) Outcome
  unfolding reconcile_found
  after_read settings (ok instance) = reconcile_found settings instance
  after_read settings (err e) = if is_not_found e then pure finished else raise e
  after_read settings (panic m) = lift (panic m)

  -- `Reconcile`
  unfoldable pub reconcile : Settings → Key → Exec (World W) Outcome
  unfolding after_read
  reconcile settings req = do
    got ← caught (calling (client.idling_resources.get req))
    after_read settings got
