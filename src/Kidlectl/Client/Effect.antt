-- ===== src/Kidlectl/Client/Effect.antt =====
-- `ApplyDesiredIdleState` of cmd/kidlectl/pkg/kidleclient.go and then a run of the reconcile loop.
use kidle.Prelude.{◌≡◌, ap, ◌∙◌, Bool, false, some, List, if◌then◌else◌}
use kidle.Exec.{ok}
use kidle.Meta.{Key}
use kidle.Objects.{
  workload_object, cron_job_object, service_account_object, role_object, role_binding_object,
}
use kidle.Api.{IdlingResource, idling_resource_object, is_being_deleted}
use kidle.Cluster.{
  Cluster, Client, IsLawful, deployment_slot, stateful_set_slot, cron_job_slot,
  service_account_slot, role_slot, role_binding_slot, idling_resource_slot,
}
use kidle.Idler.Change.Updated.{put_self}
use kidle.Controller.State.{Event, Outcome, World, Libraries, IsDocumented}
use kidle.Controller.CronStrategies.Values.{Settings}
use kidle.Controller.Reconcile.{reconcile}
use kidle.Controller.Reconcile.Whole.{Served, reconcile-Served}
use kidle.Kidlectl.Client.{with_idle, apply_desired_idle_state}
use kidle.Kidlectl.Client.Laws.{Applied, apply_desired_idle_state-Applied}

Applied-stored :
    {before after : Cluster} {idle changed : Bool} {req : Key} (ir : IdlingResource)
    → before.idling_resources req ≡ some ir
    → Applied before after idle changed req
    → after.idling_resources req ≡ some (with_idle ir idle)
Applied-stored {before} {after} {idle} {changed} {req} ir there done =
    let same : done.ir ≡ ir = cc (done.found, there) in
    ap (λ (c : Cluster). c.idling_resources req) done.written
    ∙ put_self req (some (with_idle done.ir idle)) before.idling_resources
    ∙ ap (λ i. some (with_idle i idle)) same

module _ {W : Type 0} {view : W → Cluster} (client : Client W) (libraries : Libraries)
    (settings : Settings) (documented : IsDocumented libraries)
    (instances : IsLawful view idling_resource_slot idling_resource_object client.idling_resources)
    (deployments : IsLawful view deployment_slot workload_object client.deployments)
    (stateful_sets : IsLawful view stateful_set_slot workload_object client.stateful_sets)
    (jobs : IsLawful view cron_job_slot cron_job_object client.cron_jobs)
    (accounts : IsLawful view service_account_slot service_account_object client.service_accounts)
    (roles : IsLawful view role_slot role_object client.roles)
    (bindings : IsLawful view role_binding_slot role_binding_object client.role_bindings) where
  -- After an `ApplyDesiredIdleState` that succeeds for a stored IdlingResource that is not being
  -- deleted and names a Deployment or a StatefulSet, a `Reconcile` that succeeds either finds no
  -- workload and asks for another run, or leaves the workload stored in the desired state, with a
  -- reference.
  pub reconcile-apply_desired_idle_state :
      (idle changed : Bool) (req : Key) (ir : IdlingResource) (w x : W) (events : List Event)
      (y : World W) (out : Outcome) (stateful : Bool)
      → (view w).idling_resources req ≡ some ir
      → ir.spec.idling_resource_ref.kind ≡ (if stateful then "StatefulSet" else "Deployment")
      → is_being_deleted ir ≡ false
      → apply_desired_idle_state client.idling_resources idle req w ≡ (ok changed, x)
      → reconcile client libraries settings req (record { cluster = x; events = events })
        ≡ (ok out, y)
      → Served
          (if stateful then stateful_set_slot else deployment_slot)
          (with_idle ir idle)
          (view x)
          (view y.cluster)
          out
  unfolding is_being_deleted
  reconcile-apply_desired_idle_state idle changed req ir w x events y out stateful there kind lives
        applies runs =
      reconcile-Served client libraries settings documented instances deployments stateful_sets jobs
        accounts roles bindings req (with_idle ir idle) _ y out stateful
        (Applied-stored ir there
          (apply_desired_idle_state-Applied instances idle changed req w x applies))
        kind lives runs
