-- ===== src/Controller/Reconcile/Elsewhere.antt =====
-- What `Reconcile` does to a Deployment or a StatefulSet that the IdlingResource of the request does
-- not name, in every outcome.
use kidle.Prelude.{
  String, ◌≡◌, ◌≢◌, refl, Bool, true, false, Option, some, ◌⊎◌, inl, inr, Bool-cases, if◌then◌else◌,
  ◌==◌,
}
use kidle.Meta.{Key, same_key}
use kidle.Objects.{
  Workload, workload_object, cron_job_object, service_account_object, role_object,
  role_binding_object,
}
use kidle.Api.{IdlingResource, idling_resource_object}
use kidle.Cluster.{
  put, Slot, Cluster, Client, ObjectClient, IsLawful, deployment_slot, stateful_set_slot,
  cron_job_slot, service_account_slot, role_slot, role_binding_slot, idling_resource_slot,
}
use kidle.Idler.Change.Updated.{same_key-eq}
use kidle.Idler.Replicas.{replicas_idler}
use kidle.Idler.Replicas.Contract.{replicas_idler-IsIdler}
use kidle.Idler.CronJob.{cron_job_idler}
use kidle.Idler.CronJob.Contract.{cron_job_idler-IsIdler}
use kidle.Controller.State.{World, Libraries, IsDocumented}
use kidle.Controller.Maintains.{Maintains, still-Maintains, if-Maintains, tested-Maintains}
use kidle.Controller.CronStrategies.Values.{Settings}
use kidle.Controller.Reconcile.{workload_key, reconcile_workload, dispatch, reconcile}
use kidle.Controller.Reconcile.Spared.{reconcile_workload-Maintains}
use kidle.Controller.Reconcile.Every.{reconcile-Every}
use kidle.Controller.Reconcile.Stands.{own_slot}

abbrev pub own_kind : Bool → String
own_kind stateful = if stateful then "StatefulSet" else "Deployment"

-- The IdlingResource names an object of another kind or under another key.
abbrev pub NamesOther : Bool → Key → IdlingResource → Type 0
NamesOther stateful key instance =
    ((instance.spec.idling_resource_ref.kind == own_kind stateful) ≡ false)
    ⊎ (workload_key instance ≢ key)

abbrev Is : Bool → Key → Option Workload → Cluster → Type 0
Is stateful key found c = (own_slot stateful).read c key ≡ found

put-Is :
    (slot : Slot Workload) (key other : Key) (found : Option Workload) (p : Workload) (a : Cluster)
    → other ≢ key
    → slot.read a key ≡ found
    → slot.read (slot.write (put other (some p) (slot.read a)) a) key ≡ found
put-Is slot key other found p a apart is = elim (Bool-cases (same_key other key)) [
  | inl same ↦ elim (apart (same_key-eq other key same)) [ ]
  | inr differs ↦ rw (slot.read-write, differs) is
]

Is-elsewhere :
    (stateful theirs : Bool) (key other : Key) (found : Option Workload) (p : Workload)
    (a : Cluster)
    → (theirs ≢ stateful) ⊎ (other ≢ key)
    → Is stateful key found a
    → Is stateful key found
        ((own_slot theirs).write (put other (some p) ((own_slot theirs).read a)) a)
Is-elsewhere true true key other found p a (inr apart) is =
    put-Is stateful_set_slot key other found p a apart is
Is-elsewhere false false key other found p a (inr apart) is =
    put-Is deployment_slot key other found p a apart is
Is-elsewhere true true key other found p a (inl apart) is = elim (apart refl) [ ]
Is-elsewhere false false key other found p a (inl apart) is = elim (apart refl) [ ]
Is-elsewhere true false key other found p a apart is = is
Is-elsewhere false true key other found p a apart is = is

Is-same :
    (stateful : Bool) (key : Key) (found : Option Workload) (a b : Cluster)
    → b.deployments ≡ a.deployments
    → b.stateful_sets ≡ a.stateful_sets
    → Is stateful key found a
    → Is stateful key found b
Is-same true key found a b d s is = rw s is
Is-same false key found a b d s is = rw d is

module _ {W : Type 0} {view : W → Cluster} (client : Client W) (libraries : Libraries)
    (documented : IsDocumented libraries)
    (instances : IsLawful view idling_resource_slot idling_resource_object client.idling_resources)
    (deployments : IsLawful view deployment_slot workload_object client.deployments)
    (stateful_sets : IsLawful view stateful_set_slot workload_object client.stateful_sets)
    (jobs : IsLawful view cron_job_slot cron_job_object client.cron_jobs) (stateful : Bool)
    (key : Key) (found : Option Workload) where
  abbrev Still : W → Type 0
  Still w = Is stateful key found (view w)

  workload-Still :
      (theirs : Bool) {c : ObjectClient W Workload}
      → IsLawful view (own_slot theirs) workload_object c
      → (instance : IdlingResource) → (theirs ≢ stateful) ⊎ (workload_key instance ≢ key)
      → Maintains Still (
          reconcile_workload client libraries c
            (replicas_idler c libraries.retry_on_conflict)
            instance)
  workload-Still theirs law instance apart =
      reconcile_workload-Maintains client libraries law
        (replicas_idler-IsIdler law documented.retries) instances (Is stateful key found)
        (λ m c. Is-same stateful key found _ _ refl refl) instance
        (λ o c. Is-elsewhere stateful theirs key (workload_key instance) found o c apart)

  cron_job-Still :
      (instance : IdlingResource)
      → Maintains Still (
          reconcile_workload client libraries client.cron_jobs
            (cron_job_idler client.cron_jobs libraries.retry_on_conflict)
            instance)
  cron_job-Still instance =
      reconcile_workload-Maintains client libraries jobs
        (cron_job_idler-IsIdler jobs documented.retries) instances (Is stateful key found)
        (λ m c. Is-same stateful key found _ _ refl refl) instance
        (λ o c. Is-same stateful key found _ _ refl refl)

  -- The case of the switch that is taken is not the one of this workload.
  taken_elsewhere :
      (theirs : Bool) (instance : IdlingResource)
      → (instance.spec.idling_resource_ref.kind == own_kind theirs) ≡ true
      → NamesOther stateful key instance
      → (theirs ≢ stateful) ⊎ (workload_key instance ≢ key)
  taken_elsewhere theirs instance taken (inl differs) = inl (λ same.
      let this : (instance.spec.idling_resource_ref.kind == own_kind stateful) ≡ true =
        rw same at taken in
      cc (this, differs))
  taken_elsewhere theirs instance taken (inr apart) = inr apart

  dispatch-Still :
      (instance : IdlingResource)
      → NamesOther stateful key instance
      → Maintains Still (dispatch client libraries instance)
  unfolding dispatch
  dispatch-Still instance other =
      let kind = instance.spec.idling_resource_ref.kind in
      tested-Maintains (kind == "Deployment") _ _
        (λ taken.
          workload-Still false deployments instance (taken_elsewhere false instance taken other))
        (λ skipped.
          tested-Maintains (kind == "StatefulSet") _ _
            (λ taken.
              workload-Still true stateful_sets instance
                (taken_elsewhere true instance taken other))
            (λ passed.
              if-Maintains (kind == "CronJob") _ _ (cron_job-Still instance)
                (still-Maintains _ (λ w. refl))))

module _ {W : Type 0} {view : W → Cluster} (client : Client W) (libraries : Libraries)
    (settings : Settings) (documented : IsDocumented libraries)
    (instances : IsLawful view idling_resource_slot idling_resource_object client.idling_resources)
    (deployments : IsLawful view deployment_slot workload_object client.deployments)
    (stateful_sets : IsLawful view stateful_set_slot workload_object client.stateful_sets)
    (jobs : IsLawful view cron_job_slot cron_job_object client.cron_jobs)
    (accounts : IsLawful view service_account_slot service_account_object client.service_accounts)
    (roles : IsLawful view role_slot role_object client.roles)
    (bindings : IsLawful view role_binding_slot role_binding_object client.role_bindings) where
  -- A `Reconcile`, whether it succeeds, fails or panics, leaves a Deployment or a StatefulSet as it
  -- was, stored or not, where the IdlingResource stored for the request, if any, names an object of
  -- another kind or under another key, also if the IdlingResource is being deleted.
  pub reconcile-elsewhere :
      (stateful : Bool) (key : Key) (req : Key) (w : World W)
      → ((i : IdlingResource)
          → (view w.cluster).idling_resources req ≡ some i
          → NamesOther stateful key i)
      → (own_slot stateful).read (view (reconcile client libraries settings req w).1.cluster) key
        ≡ (own_slot stateful).read (view w.cluster) key
  reconcile-elsewhere stateful key req w other =
      let found = (own_slot stateful).read (view w.cluster) key in
      reconcile-Every client libraries settings instances jobs accounts roles bindings
        (Is stateful key found) (λ m c. Is-same stateful key found _ _ refl refl)
        (λ m c. Is-same stateful key found _ _ refl refl)
        (λ m c. Is-same stateful key found _ _ refl refl)
        (λ m c. Is-same stateful key found _ _ refl refl)
        (λ m c. Is-same stateful key found _ _ refl refl) (NamesOther stateful key)
        (λ read fs names. names)
        (dispatch-Still client libraries documented instances deployments stateful_sets jobs
          stateful key found)
        req w other refl
