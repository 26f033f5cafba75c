-- ===== src/Controller/Reconcile/Whole.antt =====
-- Whole runs of `Reconcile` for a Deployment or a StatefulSet.
use kidle.Prelude.{
  String, ◌≡◌, refl, ap, sym, ◌∙◌, Bool, true, false, none, some, arith, ◌⊎◌, inl, inr,
  if◌then◌else◌, ◌==◌, List,
}
use kidle.Exec.{Result, ok, err, panic, ◌>>◌}
use kidle.Meta.{Key, get_annotation}
use kidle.Objects.{
  Workload, workload_object, cron_job_object, service_account_object, role_object,
  role_binding_object,
}
use kidle.Api.{
  IdlingResource, idling_resource_object, idling_resource_finalizer_name, has_finalizer,
  is_being_deleted, metadata_idling_resource_reference,
}
use kidle.Cluster.{
  Cluster, Client, ObjectClient, Slot, Stored, IsLawful, deployment_slot, stateful_set_slot,
  cron_job_slot, service_account_slot, role_slot, role_binding_slot, idling_resource_slot,
}
use kidle.Idler.Change.Updated.{Updated-IsCurrent}
use kidle.Idler.Replicas.{replicas_idler}
use kidle.Idler.Replicas.Contract.{Asleep, Awake, replicas_idler-IsIdler}
use kidle.Controller.State.{Outcome, World, Libraries, IsDocumented}
use kidle.Controller.Steps.{bind_step}
use kidle.Controller.Finalizer.{with_finalizers, add_finalizer}
use kidle.Controller.CronStrategies.{reconcile_cron_strategies}
use kidle.Controller.CronStrategies.Frame.{reconcile_cron_strategies-Spared}
use kidle.Controller.CronStrategies.Values.{Settings}
use kidle.Controller.Reconcile.{
  workload_key, reconcile_workload, dispatch, with_finalizer, reconcile_found, reconcile,
}
use kidle.Exec.{is_not_found-cases}
use kidle.Controller.Reconcile.Laws.{reconcile_workload-cases}

-- The workload of the instance is not stored, and the loop is to run again in two seconds, or it is
-- stored in the state that the instance asks for, with a reference.
abbrev pub Served : Slot Workload → IdlingResource → Cluster → Cluster → Outcome → Type 0
Served slot instance before after out =
    ((slot.read before (workload_key instance) ≡ none) × (out ≡ record { requeue_after = 2 }))
    ⊎ ((o : Workload) × (slot.read after (workload_key instance) ≡ some o)
        × (if instance.spec.idle then Asleep o else Awake o)
        × (v : String) × (get_annotation o.meta metadata_idling_resource_reference ≡ some v))

-- The finalizers make no difference.
Served-from :
    (slot : Slot Workload) (read instance : IdlingResource) (finalizers : List String)
    (a b c : Cluster) (out : Outcome)
    → instance ≡ with_finalizers read finalizers
    → slot.read b ≡ slot.read a
    → Served slot instance b c out
    → Served slot read a c out
Served-from slot read instance finalizers a b c out same kept served =
    let changed : Served slot (with_finalizers read finalizers) b c out = rw same at served in
    elim changed [
      | inl (missing, again) ↦
          inl (ap (λ (m : Stored Workload). m (workload_key read)) (sym kept) ∙ missing, again)
      | inr stored ↦ inr stored
    ]

module _ {W : Type 0} {view : W → Cluster} (client : Client W) (libraries : Libraries)
    (documented : IsDocumented libraries) {slot : Slot Workload} {c : ObjectClient W Workload}
    (law : IsLawful view slot workload_object c) where
  workload-Served :
      (instance : IdlingResource) (w x : World W) (out : Outcome)
      → is_being_deleted instance ≡ false
      → reconcile_workload client libraries c
          (replicas_idler c libraries.retry_on_conflict)
          instance
          w
        ≡ (ok out, x)
      → Served slot instance (view w.cluster) (view x.cluster) out
  workload-Served instance w x out lives e =
      elim (reconcile_workload-cases client libraries law
        (replicas_idler-IsIdler law documented.retries) instance w x out _ refl lives e) [
          | inl (missing, again, _) ↦ inl (missing, again)
          | inr (run, after, seen, named, same, done) ↦
              let there = Updated-IsCurrent view slot workload_object done.moved in
              inr (
                after.object,
                rw (done.moved.named, named, same) at there,
                done.state,
                _,
                done.referenced_by,
              )
        ]

module _ {W : Type 0} {view : W → Cluster} (client : Client W) (libraries : Libraries)
    (instances : IsLawful view idling_resource_slot idling_resource_object
      client.idling_resources) where
  -- The instance that the code goes on with differs in its finalizers at most, and no workload has
  -- changed.
  pub with_finalizer-ok_at :
      (read instance : IdlingResource) (w x : World W) (has : Bool)
      → has_finalizer read idling_resource_finalizer_name ≡ has
      → with_finalizer client libraries read w ≡ (ok instance, x)
      → (instance ≡ with_finalizers read instance.meta.finalizers)
        × ((view x.cluster).deployments ≡ (view w.cluster).deployments)
        × ((view x.cluster).stateful_sets ≡ (view w.cluster).stateful_sets)
  unfolding with_finalizer add_finalizer
  with_finalizer-ok_at read instance w x true g e = (ground arith, ground arith, ground arith)
  with_finalizer-ok_at read instance w x false g e =
      let changed =
        with_finalizers read
          (libraries.add_finalizer read.meta.finalizers idling_resource_finalizer_name) in
      let stored : (client.idling_resources.update changed w.cluster).0 ≡ ok tt = ground arith in
      let moved : x.cluster ≡ (client.idling_resources.update changed w.cluster).1 = ground arith in
      let same : changed ≡ instance = ground arith in
      let written = ap view moved ∙ instances.update-ok changed w.cluster tt stored in
      (rw (← same) refl, rw written refl, rw written refl)

  -- The read of an instance that is stored.
  read_found_at :
      (settings : Settings) (req : Key) (w x : World W) (out : Outcome) (instance : IdlingResource)
      (got : Result IdlingResource)
      → (client.idling_resources.get req w.cluster).0 ≡ got
      → (view w.cluster).idling_resources req ≡ some instance
      → reconcile client libraries settings req w ≡ (ok out, x)
      → reconcile_found client libraries settings instance
          (record w { cluster = (client.idling_resources.get req w.cluster).1 })
        ≡ (ok out, x)
  unfolding reconcile
  read_found_at settings req w x out instance (ok i) g there e =
      let same : i ≡ instance = cc (instances.get-ok req w.cluster i g, there) in
      rw (← same) (ground arith)
  read_found_at settings req w x out instance (err m) g there e = elim (is_not_found-cases m) [
    | inl other ↦ ground arith
    | inr (message, missing) ↦
        let gone = instances.get-not_found req w.cluster message (g ∙ ap err missing) in
        cc (gone, there)
  ]
  read_found_at settings req w x out instance (panic m) g there e = ground arith

module _ {W : Type 0} {view : W → Cluster} (client : Client W) (libraries : Libraries)
    (settings : Settings) (documented : IsDocumented libraries)
    (instances : IsLawful view idling_resource_slot idling_resource_object client.idling_resources)
    (deployments : IsLawful view deployment_slot workload_object client.deployments)
    (stateful_sets : IsLawful view stateful_set_slot workload_object client.stateful_sets)
    (jobs : IsLawful view cron_job_slot cron_job_object client.cron_jobs)
    (accounts : IsLawful view service_account_slot service_account_object client.service_accounts)
    (roles : IsLawful view role_slot role_object client.roles)
    (bindings : IsLawful view role_binding_slot role_binding_object client.role_bindings) where
  dispatch-Served :
      (instance : IdlingResource) (w x : World W) (out : Outcome) (stateful : Bool)
      → instance.spec.idling_resource_ref.kind ≡ (if stateful then "StatefulSet" else "Deployment")
      → is_being_deleted instance ≡ false
      → dispatch client libraries instance w ≡ (ok out, x)
      → Served
          (if stateful then stateful_set_slot else deployment_slot)
          instance
          (view w.cluster)
          (view x.cluster)
          out
  unfolding dispatch
  dispatch-Served instance w x out true kind lives e =
      let named : (instance.spec.idling_resource_ref.kind == "StatefulSet") ≡ true = rw kind refl in
      let other : (instance.spec.idling_resource_ref.kind == "Deployment") ≡ false = rw kind refl in
      workload-Served client libraries documented stateful_sets instance w x out lives
        (rw (other, named) at e)
  dispatch-Served instance w x out false kind lives e =
      let named : (instance.spec.idling_resource_ref.kind == "Deployment") ≡ true = rw kind refl in
      workload-Served client libraries documented deployments instance w x out lives (rw named at e)

  -- What the steps before leave alone.
  read_slot :
      (stateful : Bool) (a b : Cluster)
      → b.deployments ≡ a.deployments
      → b.stateful_sets ≡ a.stateful_sets
      → (if stateful then stateful_set_slot else deployment_slot).read b
        ≡ (if stateful then stateful_set_slot else deployment_slot).read a
  read_slot true a b h k = k
  read_slot false a b h k = h

  found-Served :
      (read : IdlingResource) (w x : World W) (out : Outcome) (stateful : Bool)
      → read.spec.idling_resource_ref.kind ≡ (if stateful then "StatefulSet" else "Deployment")
      → is_being_deleted read ≡ false
      → reconcile_found client libraries settings read w ≡ (ok out, x)
      → Served
          (if stateful then stateful_set_slot else deployment_slot)
          read
          (view w.cluster)
          (view x.cluster)
          out
  unfolding reconcile_found is_being_deleted
  found-Served read w x out stateful kind lives e =
      let cron = reconcile_cron_strategies client settings in
      let switch = dispatch client libraries in
      let given = with_finalizer client libraries read in
      let (instance, gives, rest) = bind_step (λ i. cron i >> switch i) given w x out e in
      let y = (given w).1 in
      let (u, strategies, switches) =
        bind_step (λ _. switch instance) (cron instance) y x out rest in
      let z = (cron instance y).1 in
      let (same, d, s) =
        with_finalizer-ok_at client libraries instances read instance w y _ refl gives in
      let spared =
        reconcile_cron_strategies-Spared client settings jobs accounts roles bindings instance y in
      let slots =
        read_slot stateful (view w.cluster) (view z.cluster) (spared.deployments ∙ d)
          (spared.stateful_sets ∙ s) in
      let served =
        dispatch-Served instance z x out stateful (rw same kind) (rw same lives) switches in
      Served-from (if stateful then stateful_set_slot else deployment_slot) read instance
        instance.meta.finalizers (view w.cluster) (view z.cluster) (view x.cluster) out same slots
        served

  -- A `Reconcile` that succeeds for a stored IdlingResource that is not being deleted and names a
  -- Deployment or a StatefulSet ends in one of two ways: the workload is not stored and the loop is
  -- to run again in two seconds, or it is stored in the state that the IdlingResource asks for, with
  -- a reference. The finalizer and the schedules, handled before, make no difference.
  pub reconcile-Served :
      (req : Key) (instance : IdlingResource) (w x : World W) (out : Outcome) (stateful : Bool)
      → (view w.cluster).idling_resources req ≡ some instance
      → instance.spec.idling_resource_ref.kind ≡ (if stateful then "StatefulSet" else "Deployment")
      → is_being_deleted instance ≡ false
      → reconcile client libraries settings req w ≡ (ok out, x)
      → Served
          (if stateful then stateful_set_slot else deployment_slot)
          instance
          (view w.cluster)
          (view x.cluster)
          out
  reconcile-Served req instance w x out stateful there kind lives e =
      let found =
        read_found_at client libraries instances settings req w x out instance _ refl there e in
      let seen = instances.get-view req w.cluster in
      rw seen at (found-Served instance _ x out stateful kind lives found)
