-- ===== src/Controller/Reconcile/Every.antt =====
-- `Reconcile` in every outcome: what its run for the workload maintains for the instances that the
-- read may give, the whole maintains.
use kidle.Prelude.{String, List, ◌≡◌, refl, ap, some, inl, inr, Bool-cases}
use kidle.Exec.{Result, ok, err, panic, is_not_found}
use kidle.Meta.{Key}
use kidle.Objects.{
  CronJob, ServiceAccount, Role, RoleBinding, cron_job_object, service_account_object, role_object,
  role_binding_object,
}
use kidle.Api.{
  IdlingResource, idling_resource_object, idling_resource_finalizer_name, has_finalizer,
}
use kidle.Cluster.{
  Cluster, Client, Stored, IsLawful, cron_job_slot, service_account_slot, role_slot,
  role_binding_slot, idling_resource_slot,
}
use kidle.Controller.State.{World, Libraries}
use kidle.Controller.Maintains.{
  Maintains, known-Maintains, named-Maintains, bind-Maintains, then-Maintains, on_error-Maintains,
  still-Maintains, if-Maintains,
}
use kidle.Controller.Maintains.Calls.{update-Maintains}
use kidle.Controller.Finalizer.{add_finalizer, with_finalizers}
use kidle.Controller.CronStrategies.Frame.{reconcile_cron_strategies-Maintains}
use kidle.Controller.CronStrategies.Values.{Settings}
use kidle.Controller.Reconcile.{
  dispatch, with_finalizer, give_finalizer, reconcile_found, after_read, reconcile,
}
use kidle.Controller.Reconcile.Whole.{with_finalizer-ok_at}

module _ {W : Type 0} {view : W → Cluster} (client : Client W) (libraries : Libraries)
    (settings : Settings)
    (instances : IsLawful view idling_resource_slot idling_resource_object client.idling_resources)
    (jobs : IsLawful view cron_job_slot cron_job_object client.cron_jobs)
    (accounts : IsLawful view service_account_slot service_account_object client.service_accounts)
    (roles : IsLawful view role_slot role_object client.roles)
    (bindings : IsLawful view role_binding_slot role_binding_object client.role_bindings)
    (I : Cluster → Type 0)
    (spares_instances : (m : Stored IdlingResource) (c : Cluster)
      → I c
      → I (idling_resource_slot.write m c))
    (spares_jobs : (m : Stored CronJob) (c : Cluster) → I c → I (cron_job_slot.write m c))
    (spares_accounts : (m : Stored ServiceAccount) (c : Cluster)
      → I c
      → I (service_account_slot.write m c))
    (spares_roles : (m : Stored Role) (c : Cluster) → I c → I (role_slot.write m c))
    (spares_bindings : (m : Stored RoleBinding) (c : Cluster)
      → I c
      → I (role_binding_slot.write m c))
    (Q : IdlingResource → Type 0)
    (Q_finalizers : (read : IdlingResource) (finalizers : List String)
      → Q read
      → Q (with_finalizers read finalizers))
    (dispatches : (instance : IdlingResource)
      → Q instance
      → Maintains (λ (w : W). I (view w)) (dispatch client libraries instance)) where
  abbrev Holds : W → Type 0
  Holds w = I (view w)

  add_finalizer-Every :
      (instance : IdlingResource) → Maintains Holds (add_finalizer client libraries instance)
  unfolding add_finalizer
  add_finalizer-Every instance =
      then-Maintains _ _ (named-Maintains _ _ (update-Maintains instances I spares_instances _))
        (still-Maintains _ (λ w. refl))

  with_finalizer-Every :
      (read : IdlingResource) → Maintains Holds (with_finalizer client libraries read)
  unfolding with_finalizer give_finalizer
  with_finalizer-Every read =
      if-Maintains (has_finalizer read idling_resource_finalizer_name) _ _
        (still-Maintains _ (λ w. refl))
        (bind-Maintains _ _
          (on_error-Maintains _ _ (add_finalizer-Every read) (λ e. still-Maintains _ (λ w. refl)))
          (λ changed. still-Maintains _ (λ w. refl)))

  with_finalizer-Q :
      (read : IdlingResource)
      → Q read
      → (w : World W) (instance : IdlingResource)
      → (with_finalizer client libraries read w).0 ≡ ok instance
      → Q instance
  with_finalizer-Q read lives w instance e =
      let x = (with_finalizer client libraries read w).1 in
      let (same, _, _) =
        with_finalizer-ok_at client libraries instances read instance w x _ refl
          (ap (λ r. (r, x)) e) in
      rw same (Q_finalizers read _ lives)

  found-Every :
      (read : IdlingResource)
      → Q read
      → Maintains Holds (reconcile_found client libraries settings read)
  unfolding reconcile_found
  found-Every read lives =
      known-Maintains (with_finalizer client libraries read) _ Q (with_finalizer-Every read)
        (with_finalizer-Q read lives)
        (λ instance still.
          then-Maintains _ _
            (reconcile_cron_strategies-Maintains client settings jobs accounts roles bindings I
              spares_jobs spares_accounts spares_roles spares_bindings instance)
            (dispatches instance still))

  after_read-Every :
      (req : Key) (w : World W) (got : Result IdlingResource)
      → (client.idling_resources.get req w.cluster).0 ≡ got
      → ((i : IdlingResource) → (view w.cluster).idling_resources req ≡ some i → Q i)
      → Holds w.cluster
      → Holds (reconcile client libraries settings req w).1.cluster
  unfolding reconcile after_read
  after_read-Every req w (ok i) g lives h =
      let read : World W = record w { cluster = (client.idling_resources.get req w.cluster).1 } in
      rw g (
        (found-Every i (lives i (instances.get-ok req w.cluster i g))).holds read
          (rw (instances.get-view req w.cluster) h))
  after_read-Every req w (err e) g lives h =
      let kept : Holds (client.idling_resources.get req w.cluster).1 =
        rw (instances.get-view req w.cluster) h in
      elim (Bool-cases (is_not_found e)) [
        | inl missing ↦ rw (g, missing) kept
        | inr other ↦ rw (g, other) kept
      ]
  after_read-Every req w (panic m) g lives h = rw g (rw (instances.get-view req w.cluster) h)

  -- A `Reconcile`, in any outcome, maintains what the runs for the workload of each instance that
  -- may be stored for the request maintain.
  pub reconcile-Every :
      (req : Key) (w : World W)
      → ((i : IdlingResource) → (view w.cluster).idling_resources req ≡ some i → Q i)
      → I (view w.cluster)
      → I (view (reconcile client libraries settings req w).1.cluster)
  reconcile-Every req w = after_read-Every req w _ refl
