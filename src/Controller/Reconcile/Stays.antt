-- ===== src/Controller/Reconcile/Stays.antt =====
-- What `Reconcile` keeps of a Deployment's or a StatefulSet's own number of replicas, in every
-- outcome and whatever the request is for.
use kidle.Prelude.{◌≡◌, refl, Bool, true, false, some, inl, inr, ◌==◌}
use kidle.Prelude.Int.{ℤ, IsInt32, is_positive}
use kidle.Meta.{Key}
use kidle.Objects.{
  Workload, workload_object, cron_job_object, service_account_object, role_object,
  role_binding_object,
}
use kidle.Api.{IdlingResource, idling_resource_object, is_being_deleted}
use kidle.Cluster.{
  Cluster, Client, ObjectClient, IsLawful, deployment_slot, stateful_set_slot, cron_job_slot,
  service_account_slot, role_slot, role_binding_slot, idling_resource_slot,
}
use kidle.Idler.Contract.{Preserves}
use kidle.Idler.Replicas.{replicas_idler}
use kidle.Idler.Replicas.Contract.{replicas_idler-IsIdler}
use kidle.Idler.Replicas.Keeps.{Keeps, replicas_idler-Preserves}
use kidle.Idler.CronJob.{cron_job_idler}
use kidle.Idler.CronJob.Contract.{cron_job_idler-IsIdler}
use kidle.Controller.State.{World, Libraries, IsDocumented}
use kidle.Controller.Maintains.{Maintains, still-Maintains, if-Maintains}
use kidle.Controller.CronStrategies.Values.{Settings}
use kidle.Controller.Reconcile.{workload_key, reconcile_workload, dispatch, reconcile}
use kidle.Controller.Reconcile.Kept.{reconcile_workload-Kept}
use kidle.Controller.Reconcile.Every.{reconcile-Every}
use kidle.Controller.Reconcile.Spared.{reconcile_workload-Maintains}
use kidle.Controller.Reconcile.Stands.{
  IsHarmless, Stands-elsewhere, own_slot, Stands, Stands-same, Touched-Stands,
}

module _ {W : Type 0} {view : W → Cluster} (client : Client W) (libraries : Libraries)
    (settings : Settings) (documented : IsDocumented libraries)
    (instances : IsLawful view idling_resource_slot idling_resource_object client.idling_resources)
    (deployments : IsLawful view deployment_slot workload_object client.deployments)
    (stateful_sets : IsLawful view stateful_set_slot workload_object client.stateful_sets)
    (jobs : IsLawful view cron_job_slot cron_job_object client.cron_jobs)
    (accounts : IsLawful view service_account_slot service_account_object client.service_accounts)
    (roles : IsLawful view role_slot role_object client.roles)
    (bindings : IsLawful view role_binding_slot role_binding_object client.role_bindings)
    (stateful : Bool) (key : Key) (n : ℤ) (fits : IsInt32 n)
    (some_wanted : is_positive n ≡ true) where
  abbrev Stays : W → Type 0
  Stays w = Stands stateful key n (view w)

  -- What the idlers keep if the workload is this one; what they do to another does not matter.
  abbrev IfThis : Bool → Key → Workload → Type 0
  IfThis theirs other o = theirs ≡ stateful → other ≡ key → Keeps n o

  own_there :
      (theirs : Bool) (other : Key) (a : Cluster)
      → Stands stateful key n a
      → (o : Workload) → (own_slot theirs).read a other ≡ some o
      → IfThis theirs other o
  own_there theirs other a (p, there, keeps) o has kind name =
      let found : (own_slot stateful).read a key ≡ some o = rw (kind, name) at has in
      let same : p ≡ o = cc (there, found) in rw (← same) keeps

  module _ (theirs : Bool) {c : ObjectClient W Workload}
      (law : IsLawful view (own_slot theirs) workload_object c) where
    IfThis-Preserves :
        (other : Key)
        → Preserves view
            (own_slot theirs)
            workload_object
            (replicas_idler c libraries.retry_on_conflict)
            (IfThis theirs other)
    IfThis-Preserves other =
        let keeps = replicas_idler-Preserves law documented.retries n fits some_wanted in
        record {
          by_reference = λ name s t u current e p kind same.
              keeps.by_reference name s t u current e (p kind same);
          by_idle = λ instance s t u current wish e p kind same.
              keeps.by_idle instance s t u current wish e (p kind same);
          by_wakeup = λ instance s t m current wish e p kind same.
              keeps.by_wakeup instance s t m current wish e (p kind same);
        }

    workload-Stays :
        (instance : IdlingResource)
        → IsHarmless key instance
        → Maintains Stays (
            reconcile_workload client libraries c
              (replicas_idler c libraries.retry_on_conflict)
              instance)
    workload-Stays instance (inl lives) = record {
      holds = λ w h.
          let other = workload_key instance in
          Touched-Stands stateful theirs key other n (view w.cluster) _
            (reconcile_workload-Kept client libraries law
              (replicas_idler-IsIdler law documented.retries) (IfThis-Preserves other) instance w
              lives (own_there theirs other (view w.cluster) h))
            h;
    }
    workload-Stays instance (inr apart) =
        reconcile_workload-Maintains client libraries law
          (replicas_idler-IsIdler law documented.retries) instances (Stands stateful key n)
          (λ m c. Stands-same stateful key n _ _ refl refl) instance
          (λ o c. Stands-elsewhere stateful theirs key (workload_key instance) n o c apart)

  cron_job-Stays :
      (instance : IdlingResource)
      → Maintains Stays (
          reconcile_workload client libraries client.cron_jobs
            (cron_job_idler client.cron_jobs libraries.retry_on_conflict)
            instance)
  cron_job-Stays instance =
      reconcile_workload-Maintains client libraries jobs
        (cron_job_idler-IsIdler jobs documented.retries) instances (Stands stateful key n)
        (λ m c. Stands-same stateful key n _ _ refl refl) instance
        (λ o c. Stands-same stateful key n _ _ refl refl)

  dispatch-Stays :
      (instance : IdlingResource)
      → IsHarmless key instance
      → Maintains Stays (dispatch client libraries instance)
  unfolding dispatch
  dispatch-Stays instance lives =
      let kind = instance.spec.idling_resource_ref.kind in
      if-Maintains (kind == "Deployment") _ _ (workload-Stays false deployments instance lives) (
        if-Maintains (kind == "StatefulSet") _ _ (workload-Stays true stateful_sets instance lives)
          (if-Maintains (kind == "CronJob") _ _ (cron_job-Stays instance)
            (still-Maintains _ (λ w. refl))))

  -- A `Reconcile` of any request for which no IdlingResource of this workload that is being deleted
  -- is stored, whether it succeeds, fails or panics, loses no number of replicas: a stored workload
  -- that has `n` replicas, or none and `n` saved in the annotation, is stored in one of the two ways
  -- still.
  pub reconcile-Stays :
      (req : Key) (w : World W)
      → ((i : IdlingResource) → (view w.cluster).idling_resources req ≡ some i → IsHarmless key i)
      → Stays w.cluster
      → Stays (reconcile client libraries settings req w).1.cluster
  unfolding is_being_deleted
  reconcile-Stays =
      reconcile-Every client libraries settings instances jobs accounts roles bindings
        (Stands stateful key n) (λ m c. Stands-same stateful key n _ _ refl refl)
        (λ m c. Stands-same stateful key n _ _ refl refl)
        (λ m c. Stands-same stateful key n _ _ refl refl)
        (λ m c. Stands-same stateful key n _ _ refl refl)
        (λ m c. Stands-same stateful key n _ _ refl refl) (IsHarmless key) (λ read fs lives. lives)
        dispatch-Stays
