-- ===== src/Controller/CronStrategies/Frame.antt =====
-- What `ReconcileCronStrategies` of pkg/controllers/cron_strategies.go leaves alone, in every
-- outcome.
use kidle.Prelude.{String, ◌≡◌, refl, Option, none, some}
use kidle.Exec.{is_not_found, Result, ok, err, panic}
use kidle.Meta.{Key}
use kidle.Objects.{
  CronJob, ServiceAccount, Role, RoleBinding, cron_job_object, service_account_object, role_object,
  role_binding_object,
}
use kidle.Api.{CronStrategy, IdlingResource}
use kidle.Cluster.{
  Cluster, Client, Stored, cron_job_slot, service_account_slot, role_slot, role_binding_slot,
  IsLawful,
}
use kidle.Controller.State.{World}
use kidle.Controller.Maintains.{
  Maintains, named-Maintains, lift-Maintains, bind-Maintains, then-Maintains, on_error-Maintains,
  caught-Maintains, still-Maintains, if-Maintains,
}
use kidle.Controller.Maintains.Calls.{
  get-Maintains, update-Maintains, create-Maintains, delete-Maintains,
}
use kidle.Controller.CronStrategies.{
  create_cron_job, write_values, update_cron_job, after_get, create_or_update_cron_job,
  deleted_cron_job, remove_found, reconcile_strategy, reconcile_wakeup, reconcile_idle,
  reconcile_cron_strategies,
}
use kidle.Controller.CronStrategies.Rbac.Frame.{create_rbac-Maintains}
use kidle.Controller.CronStrategies.Values.{
  Settings, CronJobValues, new_cron_job, set_cron_job_values, cron_job_need_changes,
}

-- The Deployments, the StatefulSets and the IdlingResources are as they were.
pub record Spared (before after : Cluster) : Type 0 where
  pub deployments : after.deployments ≡ before.deployments
  pub stateful_sets : after.stateful_sets ≡ before.stateful_sets
  pub idling_resources : after.idling_resources ≡ before.idling_resources

module _ {W : Type 0} {view : W → Cluster} (client : Client W) (settings : Settings)
    (jobs : IsLawful view cron_job_slot cron_job_object client.cron_jobs)
    (accounts : IsLawful view service_account_slot service_account_object client.service_accounts)
    (roles : IsLawful view role_slot role_object client.roles)
    (bindings : IsLawful view role_binding_slot role_binding_object client.role_bindings)
    (I : Cluster → Type 0)
    (spares_jobs : (m : Stored CronJob) (c : Cluster) → I c → I (cron_job_slot.write m c))
    (spares_accounts : (m : Stored ServiceAccount) (c : Cluster)
      → I c
      → I (service_account_slot.write m c))
    (spares_roles : (m : Stored Role) (c : Cluster) → I c → I (role_slot.write m c))
    (spares_bindings : (m : Stored RoleBinding) (c : Cluster)
      → I c
      → I (role_binding_slot.write m c))
    (instance : IdlingResource) where
  abbrev Holds : W → Type 0
  Holds w = I (view w)

  create_cron_job-Maintains :
      (v : CronJobValues) → Maintains Holds (create_cron_job client settings instance v)
  unfolding create_cron_job
  create_cron_job-Maintains v =
      lift-Maintains (set_cron_job_values settings (new_cron_job v.key) v) _ (λ cj.
        bind-Maintains _ _ (named-Maintains _ _ (still-Maintains _ (λ w. refl)))
          (λ owned. named-Maintains _ _ (create-Maintains jobs I spares_jobs owned)))

  write_values-Maintains :
      (o : CronJob) (v : CronJobValues) → Maintains Holds (write_values client settings o v)
  unfolding write_values
  write_values-Maintains o v =
      lift-Maintains _ _ (λ cj. named-Maintains _ _ (update-Maintains jobs I spares_jobs cj))

  update_cron_job-Maintains :
      (o : CronJob) (v : CronJobValues) → Maintains Holds (update_cron_job client settings o v)
  unfolding update_cron_job
  update_cron_job-Maintains o v = lift-Maintains (cron_job_need_changes settings o v) _ (λ changes.
      if-Maintains changes _ _ (write_values-Maintains o v) (still-Maintains _ (λ w. refl)))

  after_get-Maintains :
      (v : CronJobValues) (got : Result CronJob)
      → Maintains Holds (after_get client settings instance v got)
  unfolding after_get
  after_get-Maintains v (ok o) = update_cron_job-Maintains o v
  after_get-Maintains v (err e) =
      if-Maintains (is_not_found e) _ _ (create_cron_job-Maintains v)
        (still-Maintains _ (λ w. refl))
  after_get-Maintains v (panic m) = still-Maintains _ (λ w. refl)

  create_or_update_cron_job-Maintains :
      (v : CronJobValues) → Maintains Holds (create_or_update_cron_job client settings instance v)
  unfolding create_or_update_cron_job
  create_or_update_cron_job-Maintains v =
      caught-Maintains _ _ (get-Maintains jobs I v.key) (after_get-Maintains v)

  deleted_cron_job-Maintains :
      (reason returned : String) (gone : Result (Unit {0}))
      → Maintains Holds (deleted_cron_job client settings reason returned gone)
  unfolding deleted_cron_job
  deleted_cron_job-Maintains reason returned (ok u) = still-Maintains _ (λ w. refl)
  deleted_cron_job-Maintains reason returned (err e) =
      if-Maintains (is_not_found e) _ _ (still-Maintains _ (λ w. refl))
        (still-Maintains _ (λ w. refl))
  deleted_cron_job-Maintains reason returned (panic m) = still-Maintains _ (λ w. refl)

  remove_found-Maintains :
      (reason returned : String) (got : Result CronJob)
      → Maintains Holds (remove_found client settings reason returned got)
  unfolding remove_found
  remove_found-Maintains reason returned (ok o) =
      caught-Maintains _ _ (delete-Maintains jobs I spares_jobs o)
        (deleted_cron_job-Maintains reason returned)
  remove_found-Maintains reason returned (err e) = still-Maintains _ (λ w. refl)
  remove_found-Maintains reason returned (panic m) = still-Maintains _ (λ w. refl)

  strategy-Maintains :
      (key : Key) (command : String) (strategy : Option CronStrategy)
      (creating creating_error deleting deleting_error : String)
      → Maintains Holds (
          reconcile_strategy client settings instance key command strategy creating creating_error
            deleting deleting_error)
  unfolding reconcile_strategy
  strategy-Maintains key command (some strategy) creating creating_error deleting deleting_error =
      then-Maintains _ _
        (on_error-Maintains _ _ (create_or_update_cron_job-Maintains _)
          (λ e. still-Maintains _ (λ w. refl)))
        (still-Maintains _ (λ w. refl))
  strategy-Maintains key command none creating creating_error deleting deleting_error =
      caught-Maintains _ _ (get-Maintains jobs I key)
        (remove_found-Maintains deleting deleting_error)

  reconcile_wakeup-Maintains : Maintains Holds (reconcile_wakeup client settings instance)
  unfolding reconcile_wakeup
  reconcile_wakeup-Maintains = lift-Maintains _ _ (λ name. strategy-Maintains _ _ _ _ _ _ _)

  reconcile_idle-Maintains : Maintains Holds (reconcile_idle client settings instance)
  unfolding reconcile_idle
  reconcile_idle-Maintains =
      lift-Maintains _ _
        (λ name. then-Maintains _ _ (strategy-Maintains _ _ _ _ _ _ _) reconcile_wakeup-Maintains)

  -- `ReconcileCronStrategies` maintains what depends on none of the objects that it stores.
  pub reconcile_cron_strategies-Maintains :
      Maintains Holds (reconcile_cron_strategies client settings instance)
  unfolding reconcile_cron_strategies
  reconcile_cron_strategies-Maintains =
      then-Maintains _ _
        (on_error-Maintains _ _
          (create_rbac-Maintains client settings accounts roles bindings I spares_accounts
            spares_roles spares_bindings instance)
          (λ e. still-Maintains _ (λ w. refl)))
        reconcile_idle-Maintains

module _ {W : Type 0} {view : W → Cluster} (client : Client W) (settings : Settings)
    (jobs : IsLawful view cron_job_slot cron_job_object client.cron_jobs)
    (accounts : IsLawful view service_account_slot service_account_object client.service_accounts)
    (roles : IsLawful view role_slot role_object client.roles)
    (bindings : IsLawful view role_binding_slot role_binding_object client.role_bindings)
    (instance : IdlingResource) where
  -- A run of `ReconcileCronStrategies`, whether it succeeds, fails or panics, leaves the
  -- Deployments, the StatefulSets and the IdlingResources as they were.
  pub reconcile_cron_strategies-Spared :
      (w : World W)
      → Spared
          (view w.cluster)
          (view (reconcile_cron_strategies client settings instance w).1.cluster)
  reconcile_cron_strategies-Spared w =
      (reconcile_cron_strategies-Maintains client settings jobs accounts roles bindings
          (Spared (view w.cluster))
          (λ m c h. record {
            deployments = h.deployments;
            stateful_sets = h.stateful_sets;
            idling_resources = h.idling_resources;
          })
          (λ m c h. record {
            deployments = h.deployments;
            stateful_sets = h.stateful_sets;
            idling_resources = h.idling_resources;
          })
          (λ m c h. record {
            deployments = h.deployments;
            stateful_sets = h.stateful_sets;
            idling_resources = h.idling_resources;
          })
          (λ m c h. record {
            deployments = h.deployments;
            stateful_sets = h.stateful_sets;
            idling_resources = h.idling_resources;
          })
          instance).holds
        w (record { deployments = refl; stateful_sets = refl; idling_resources = refl })
