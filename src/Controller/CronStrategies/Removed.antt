-- ===== src/Controller/CronStrategies/Removed.antt =====
-- The CronJob of a strategy that is not there, or not there any more, in `ReconcileCronStrategies` of
-- pkg/controllers/cron_strategies.go.
use kidle.Prelude.{String, ◌≡◌, refl, ap, ◌∙◌, false, none, some, arith, ◌⊎◌, inl, inr}
use kidle.Exec.{Error, is_not_found, Result, ok, err, panic, ◌>>◌}
use kidle.Meta.{Key, key_of}
use kidle.Objects.{CronJob, cron_job_object}
use kidle.Api.{IdlingResource, WakeupStrategy}
use kidle.Cluster.{Cluster, Client, cron_job_slot, IsLawful, IsLeaving}
use kidle.Controller.State.{World, calling, on_error, fail_after_event}
use kidle.Controller.Steps.{caught_step, lift_step, bind_step}
use kidle.Exec.{is_not_found-cases}
use kidle.Controller.CronStrategies.{
  deleted_cron_job, remove_found, reconcile_strategy, wakeup_strategy, key_named, reconcile_idle_at,
  reconcile_wakeup_at, reconcile_wakeup, reconcile_idle, reconcile_cron_strategies,
}
use kidle.Controller.CronStrategies.Rbac.{create_rbac}
use kidle.Dns.{to_dns_name}
use kidle.Controller.CronStrategies.Values.{Settings, command_idle, command_wakeup}

-- No CronJob is stored under the key, or one that is being deleted.
abbrev pub CronJobLeaving : Key → Cluster → Type 0
CronJobLeaving key c = IsLeaving cron_job_object (c.cron_jobs key)

-- The spec asks for no CronJob that wakes the instance up.
abbrev pub HasNoWakeup : IdlingResource → Type 0
HasNoWakeup instance =
    (instance.spec.wakeup_strategy ≡ none)
    ⊎ ((s : WakeupStrategy) × (instance.spec.wakeup_strategy ≡ some s) × (s.cron_strategy ≡ none))

module _ {W : Type 0} {view : W → Cluster} (client : Client W) (settings : Settings)
    (law : IsLawful view cron_job_slot cron_job_object client.cron_jobs) where
  deleted-CronJobLeaving :
      (reason returned : String) (o : CronJob) (gone : Result (Unit {0})) (w x : World W)
      (u : Unit {0})
      → (client.cron_jobs.delete o w.cluster).0 ≡ gone
      → deleted_cron_job client settings reason returned gone
          (record w { cluster = (client.cron_jobs.delete o w.cluster).1 })
        ≡ (ok u, x)
      → CronJobLeaving (key_of o.meta) (view x.cluster)
  unfolding deleted_cron_job
  deleted-CronJobLeaving reason returned o (ok v) w x u g e =
      let moved : x.cluster ≡ (client.cron_jobs.delete o w.cluster).1 = ground arith in
      rw moved (law.delete-ok o w.cluster v g)
  deleted-CronJobLeaving reason returned o (err m) w x u g e = elim (is_not_found-cases m) [
    | inl other ↦ ground arith
    | inr (message, missing) ↦
        let moved : x.cluster ≡ (client.cron_jobs.delete o w.cluster).1 = ground arith in
        rw (moved, law.delete-not_found o w.cluster message (g ∙ ap err missing)) tt
  ]
  deleted-CronJobLeaving reason returned o (panic m) w x u g e = ground arith

  removed_at :
      (instance : IdlingResource) (key : Key)
      (command creating creating_error deleting deleting_error : String) (w x : World W)
      (u : Unit {0}) (got : Result CronJob)
      → (client.cron_jobs.get key w.cluster).0 ≡ got
      → reconcile_strategy client settings instance key command none creating creating_error
          deleting deleting_error w
        ≡ (ok u, x)
      → CronJobLeaving key (view x.cluster)
        ⊎ ((m : Error) × ((client.cron_jobs.get key w.cluster).0 ≡ err m)
            × (is_not_found m ≡ false)
            × (x.cluster ≡ (client.cron_jobs.get key w.cluster).1))
  unfolding reconcile_strategy remove_found
  removed_at instance key command creating creating_error deleting deleting_error w x u (ok o) g e =
      let read : World W = record w { cluster = (client.cron_jobs.get key w.cluster).1 } in
      let named : key_of o.meta ≡ key =
        law.get_key key w.cluster o (law.get-ok key w.cluster o g) in
      let seen : view read.cluster ≡ view w.cluster = law.get-view key w.cluster in
      let rest =
        caught_step (remove_found client settings deleting deleting_error)
          (calling (client.cron_jobs.get key)) w x u e in
      let found : remove_found client settings deleting deleting_error (ok o) read ≡ (ok u, x) =
        rw g at rest in
      let gone =
        caught_step (deleted_cron_job client settings deleting deleting_error)
          (calling (client.cron_jobs.delete o)) read x u found in
      inl (rw named at (deleted-CronJobLeaving deleting deleting_error o _ read x u refl gone))
  removed_at instance key command creating creating_error deleting deleting_error w x u (err m) g
        e =
      let moved : x.cluster ≡ (client.cron_jobs.get key w.cluster).1 = ground arith in
      elim (is_not_found-cases m) [
        | inl other ↦ inr (m, g, other, moved)
        | inr (message, missing) ↦
            let absent = law.get-not_found key w.cluster message (g ∙ ap err missing) in
            inl (rw (moved, law.get-view, absent) tt)
      ]
  removed_at instance key command creating creating_error deleting deleting_error w x u (panic m) g
        e =
      ground arith

  -- The CronJob under the key is leaving, or the read of it in the state `v` has failed by another
  -- error than that of a missing object, and nothing has followed.
  abbrev pub RemovedOrUnread : Key → W → W → Type 0
  RemovedOrUnread key v after =
      CronJobLeaving key (view after)
      ⊎ ((m : Error) × ((client.cron_jobs.get key v).0 ≡ err m)
          × (is_not_found m ≡ false)
          × (after ≡ (client.cron_jobs.get key v).1))

  -- The state of a run after `createRBAC` and after the CronJob that idles.
  abbrev pub before_wakeup : IdlingResource → String → World W → W
  before_wakeup instance idle_name w =
      let rbac =
        on_error (create_rbac client settings instance)
          (fail_after_event "Adding RBAC" "Failed to add RBAC" "error when adding RBAC") in
      (reconcile_idle_at client settings instance idle_name (rbac w).1).1.cluster

  wakeup_strategy-none :
      (instance : IdlingResource)
      → HasNoWakeup instance
      → wakeup_strategy client settings instance ≡ none
  wakeup_strategy-none instance (inl absent) = rw absent refl
  wakeup_strategy-none instance (inr (strategy, there, absent)) = rw (there, absent) refl

  wakeup_removed :
      (instance : IdlingResource) (w x : World W) (u : Unit {0})
      → HasNoWakeup instance
      → reconcile_wakeup client settings instance w ≡ (ok u, x)
      → (name : String) × (to_dns_name "kidle" instance.meta.name "wakeup" ≡ ok name)
        × RemovedOrUnread (key_named client settings instance name) w.cluster x.cluster
  unfolding reconcile_wakeup
  wakeup_removed instance w x u absent e =
      let (name, named, run) =
        lift_step (reconcile_wakeup_at client settings instance)
          (to_dns_name "kidle" instance.meta.name command_wakeup) w x u e in
      let key = key_named client settings instance name in
      let none_asked = wakeup_strategy-none instance absent in
      (name, named, removed_at instance key _ _ _ _ _ w x u _ refl (rw none_asked at run))

  -- A `ReconcileCronStrategies` that succeeds, for an instance whose spec has no strategy for waking
  -- up, or one without a cron strategy, has deleted the CronJob that wakes it up: under the name
  -- made of the instance's, in its namespace, there is none any more, or one that is being deleted.
  -- The exception is a run whose read of this CronJob, in the state after `createRBAC` and after the
  -- CronJob that idles, has failed by another error than that of a missing object: it ends in the
  -- state after this read.
  pub reconcile_cron_strategies_removes :
      (instance : IdlingResource) (w x : World W) (u : Unit {0})
      → HasNoWakeup instance
      → reconcile_cron_strategies client settings instance w ≡ (ok u, x)
      → (idle_name : String) × (to_dns_name "kidle" instance.meta.name "idle" ≡ ok idle_name)
        × (name : String) × (to_dns_name "kidle" instance.meta.name "wakeup" ≡ ok name)
        × RemovedOrUnread
            (record { namespace = instance.meta.namespace; name = name })
            (before_wakeup instance idle_name w)
            x.cluster
  unfolding reconcile_cron_strategies reconcile_idle
  reconcile_cron_strategies_removes instance w x u absent e =
      let last = reconcile_wakeup client settings instance in
      let first = reconcile_idle_at client settings instance in
      let rbac =
        on_error (create_rbac client settings instance)
          (fail_after_event "Adding RBAC" "Failed to add RBAC" "error when adding RBAC") in
      let (_, _, idles) = bind_step (λ _. reconcile_idle client settings instance) rbac w x u e in
      let y = (rbac w).1 in
      let (idle_name, idle_named, rest) =
        lift_step (λ name. first name >> last) (to_dns_name "kidle" instance.meta.name command_idle)
          y x u idles in
      let (_, _, wakes) = bind_step (λ _. last) (first idle_name) y x u rest in
      let (name, named, removed) = wakeup_removed instance (first idle_name y).1 x u absent wakes in
      (idle_name, idle_named, name, named, removed)
