-- ===== src/History.antt =====
-- Histories: runs of `Reconcile` for any requests and in any outcome, of
-- pkg/controllers/idlingresource_controller.go, and of kidlectl's `ApplyDesiredIdleState`, of
-- cmd/kidlectl/pkg/kidleclient.go, in any order, and what others do to other objects in between.
use kidle.Prelude.{
  ◌≡◌, refl, ap, ◌∙◌, Bool, true, false, none, some, arith, inl, inr, if◌then◌else◌,
}
use kidle.Prelude.Int.{ℤ, pos, IsInt32, is_positive}
use kidle.Exec.{ok, Result-cases}
use kidle.Meta.{Key}
use kidle.Objects.{
  Workload, workload_object, cron_job_object, service_account_object, role_object,
  role_binding_object,
}
use kidle.Api.{IdlingResource, idling_resource_object, is_being_deleted}
use kidle.Cluster.{
  Cluster, Client, IsLawful, deployment_slot, stateful_set_slot, cron_job_slot,
  service_account_slot, role_slot, role_binding_slot, idling_resource_slot,
}
use kidle.Idler.Replicas.Contract.{Asleep, Awake}
use kidle.Idler.Replicas.Keeps.{Keeps}
use kidle.Idler.Replicas.RoundTrip.{previous_replicas_saved}
use kidle.Controller.State.{Outcome, World, Libraries, IsDocumented}
use kidle.Controller.CronStrategies.Values.{Settings}
use kidle.Controller.Reconcile.{workload_key, reconcile}
use kidle.Controller.Reconcile.Stands.{IsHarmless, own_slot, Stands, Stands-same}
use kidle.Controller.Reconcile.Stays.{reconcile-Stays}
use kidle.Controller.Reconcile.Whole.{Served, reconcile-Served}
use kidle.Kidlectl.Client.{apply_desired_idle_state}
use kidle.Kidlectl.Client.Laws.{apply_desired_idle_state-Applied, apply_desired_idle_state_failed}

module _ {W : Type 0} (view : W → Cluster) (client : Client W) (libraries : Libraries)
    (settings : Settings) (stateful : Bool) (key : Key) where
  -- What may happen to the workload under the key.
  pub data Step : W → W → Type 0 where
    -- a run of the loop for any IdlingResource but one that is being deleted and names the workload
    reconciles :
        (req : Key) (w : World W)
        → ((i : IdlingResource) → (view w.cluster).idling_resources req ≡ some i → IsHarmless key i)
        → Step w.cluster (reconcile client libraries settings req w).1.cluster
    -- `kidlectl idle` and `kidlectl wakeup`
    applies :
        (idle : Bool) (req : Key) (w : W)
        → Step w (apply_desired_idle_state client.idling_resources idle req w).1
    -- anything that leaves the workload as it is
    elsewhere :
        (a b : W)
        → (own_slot stateful).read (view b) key ≡ (own_slot stateful).read (view a) key
        → Step a b

  pub data Steps (w : W) : W → Type 0 where
    here : Steps w w
    next : {x y : W} → Steps w x → Step x y → Steps w y

-- What the two invariants say together of a workload in the state that is asked for.
asleep_count :
    (n : ℤ) (o : Workload) → is_positive n ≡ true → Keeps n o → Asleep o → o.replicas ≡ some (pos 0)
asleep_count n o wanted (inl up) (r, has, low) = ground arith
asleep_count n o wanted (inr (down, saved)) asleep = down

awake_count :
    (n : ℤ) (o : Workload)
    → IsInt32 n
    → is_positive n ≡ true
    → Keeps n o
    → Awake o
    → o.replicas ≡ some n
awake_count n o fits wanted (inl up) awake = up
awake_count n o fits wanted (inr (down, saved)) (r, has, inl nonzero) = ground arith
awake_count n o fits wanted (inr (down, saved)) (r, has, inr read) =
    let same : r ≡ n = cc (read, previous_replicas_saved o n fits saved) in has ∙ ap some same

served_count :
    (idle : Bool) (n : ℤ) (o : Workload)
    → IsInt32 n
    → is_positive n ≡ true
    → Keeps n o
    → (if idle then Asleep o else Awake o)
    → o.replicas ≡ some (if idle then pos 0 else n)
served_count true n o fits wanted keeps state = asleep_count n o wanted keeps state
served_count false n o fits wanted keeps state = awake_count n o fits wanted keeps state

module _ {W : Type 0} {view : W → Cluster} (client : Client W) (libraries : Libraries)
    (settings : Settings) (documented : IsDocumented libraries)
    (instances : IsLawful view idling_resource_slot idling_resource_object client.idling_resources)
    (deployments : IsLawful view deployment_slot workload_object client.deployments)
    (stateful_sets : IsLawful view stateful_set_slot workload_object client.stateful_sets)
    (jobs : IsLawful view cron_job_slot cron_job_object client.cron_jobs)
    (accounts : IsLawful view service_account_slot service_account_object client.service_accounts)
    (roles : IsLawful view role_slot role_object client.roles)
    (bindings : IsLawful view role_binding_slot role_binding_object client.role_bindings)
    (stateful : Bool) (key : Key) (n : ℤ) (fits : IsInt32 n)
    (some_wanted : is_positive n ≡ true) where
  apply-Stands :
      (idle : Bool) (req : Key) (w : W)
      → Stands stateful key n (view w)
      → Stands stateful key n (view (apply_desired_idle_state client.idling_resources idle req w).1)
  apply-Stands idle req w stands =
      let run = apply_desired_idle_state client.idling_resources idle req w in
      let same =
        λ (m : Cluster) (d : m.deployments ≡ (view w).deployments)
            (s : m.stateful_sets ≡ (view w).stateful_sets).
          Stands-same stateful key n (view w) m d s stands in
      elim (Result-cases run.0) [
        | inl (changed, e) ↦
            let done =
              apply_desired_idle_state-Applied instances idle changed req w run.1
                (ap (λ r. (r, run.1)) e) in
            same (view run.1) (rw done.written refl) (rw done.written refl)
        | inr (inl (m, e)) ↦
            let still =
              apply_desired_idle_state_failed instances idle req w run.1 run.0 refl (rw e refl) in
            rw still stands
        | inr (inr (m, e)) ↦
            let still =
              apply_desired_idle_state_failed instances idle req w run.1 run.0 refl (rw e refl) in
            rw still stands
      ]

  Step-Stands :
      {w x : W}
      → Step view client libraries settings stateful key w x
      → Stands stateful key n (view w)
      → Stands stateful key n (view x)
  Step-Stands (reconciles req w lives) stands =
      reconcile-Stays client libraries settings documented instances deployments stateful_sets jobs
        accounts roles bindings stateful key n fits some_wanted req w lives stands
  Step-Stands (applies idle req w) stands = apply-Stands idle req w stands
  Step-Stands (elsewhere a b same) (o, there, keeps) = (o, same ∙ there, keeps)

  -- No history loses the number of replicas of a workload, a positive int32: if it is stored with
  -- `n` replicas, or with none and `n` saved in the annotation, it is so after any steps.
  pub Steps-Stands :
      {w x : W}
      → Steps view client libraries settings stateful key w x
      → Stands stateful key n (view w)
      → Stands stateful key n (view x)
  Steps-Stands here stands = stands
  Steps-Stands (next steps step) stands = Step-Stands step (Steps-Stands steps stands)

  Served-Stands :
      (instance : IdlingResource) (a b : Cluster) (out : Outcome)
      → workload_key instance ≡ key
      → Stands stateful key n a
      → Stands stateful key n b
      → Served (own_slot stateful) instance a b out
      → (o : Workload) × ((own_slot stateful).read b key ≡ some o)
        × (o.replicas ≡ some (if instance.spec.idle then pos 0 else n))
  Served-Stands instance a b out named (p, there, _) after (inl (missing, again)) =
      let impossible : (own_slot stateful).read a key ≡ none = rw named at missing in
      cc (impossible, there)
  Served-Stands instance a b out named before (p, there, keeps) (inr (o, stored, state, _, _)) =
      let found : (own_slot stateful).read b key ≡ some o = rw named at stored in
      let same : p ≡ o = cc (there, found) in
      (o, found, served_count instance.spec.idle n o fits some_wanted (rw same at keeps) state)

  -- After any history, in which no run is for an IdlingResource of the workload that is being
  -- deleted, a `Reconcile` that succeeds for a stored IdlingResource that is not being deleted and names a Deployment or a
  -- StatefulSet leaves the workload stored with no replicas if the IdlingResource is to be idle, and
  -- else with the number, a positive int32, that it had at the start of the history, or that was
  -- saved then for a workload without replicas.
  pub reconcile-Steps :
      (req : Key) (instance : IdlingResource) (w : W) (before after : World W) (out : Outcome)
      → Stands stateful key n (view w)
      → Steps view client libraries settings stateful key w before.cluster
      → (view before.cluster).idling_resources req ≡ some instance
      → workload_key instance ≡ key
      → instance.spec.idling_resource_ref.kind ≡ (if stateful then "StatefulSet" else "Deployment")
      → is_being_deleted instance ≡ false
      → reconcile client libraries settings req before ≡ (ok out, after)
      → (o : Workload) × ((own_slot stateful).read (view after.cluster) key ≡ some o)
        × (o.replicas ≡ some (if instance.spec.idle then pos 0 else n))
  unfolding is_being_deleted
  reconcile-Steps req instance w before after out start history there named kind lives e =
      let stands = Steps-Stands history start in
      let stays =
        reconcile-Stays client libraries settings documented instances deployments stateful_sets
          jobs accounts roles bindings stateful key n fits some_wanted req before
          (λ i stored. let same : i ≡ instance = cc (stored, there) in inl (rw same lives))
          stands in
      let ends : Stands stateful key n (view after.cluster) = rw e at stays in
      Served-Stands instance (view before.cluster) (view after.cluster) out named stands ends (
        reconcile-Served client libraries settings documented instances deployments stateful_sets
          jobs accounts roles bindings req instance before after out stateful there kind lives e)
