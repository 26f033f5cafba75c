-- ===== src/Controller/CronStrategies/Rbac/Frame.antt =====
-- What `createRBAC` of pkg/controllers/cron_strategies.go leaves alone, in every outcome.
use kidle.Prelude.{refl}
use kidle.Exec.{is_not_found, Result, ok, err, panic}
use kidle.Meta.{Key}
use kidle.Objects.{
  ServiceAccount, Role, RoleBinding, service_account_object, role_object, role_binding_object,
}
use kidle.Api.{IdlingResource}
use kidle.Cluster.{
  Cluster, Client, Stored, service_account_slot, role_slot, role_binding_slot, IsLawful,
}
use kidle.Controller.Maintains.{
  Maintains, named-Maintains, lift-Maintains, bind-Maintains, then-Maintains, caught-Maintains,
  still-Maintains, if-Maintains,
}
use kidle.Controller.Maintains.Calls.{get-Maintains, update-Maintains, create-Maintains}
use kidle.Controller.CronStrategies.Values.{Settings}
use kidle.Controller.CronStrategies.Rbac.{
  key_in, new_service_account, service_account_after, new_role, update_role, role_after,
  new_role_binding, role_binding_after, bind_role, make_role, create_rbac,
}

module _ {W : Type 0} {view : W → Cluster} (client : Client W) (settings : Settings)
    (accounts : IsLawful view service_account_slot service_account_object client.service_accounts)
    (roles : IsLawful view role_slot role_object client.roles)
    (bindings : IsLawful view role_binding_slot role_binding_object client.role_bindings)
    (I : Cluster → Type 0)
    (spares_accounts : (m : Stored ServiceAccount) (c : Cluster)
      → I c
      → I (service_account_slot.write m c))
    (spares_roles : (m : Stored Role) (c : Cluster) → I c → I (role_slot.write m c))
    (spares_bindings : (m : Stored RoleBinding) (c : Cluster)
      → I c
      → I (role_binding_slot.write m c))
    (instance : IdlingResource) where
  abbrev Holds : W → Type 0
  Holds w = I (view w)

  new_service_account-Maintains :
      (key : Key) → Maintains Holds (new_service_account client settings instance key)
  unfolding new_service_account
  new_service_account-Maintains key =
      bind-Maintains _ _ (named-Maintains _ _ (still-Maintains _ (λ w. refl))) (λ sa.
        then-Maintains _ _ (named-Maintains _ _ (create-Maintains accounts I spares_accounts sa))
          (still-Maintains _ (λ w. refl)))

  service_account_after-Maintains :
      (key : Key) (got : Result ServiceAccount)
      → Maintains Holds (service_account_after client settings instance key got)
  unfolding service_account_after
  service_account_after-Maintains key (ok sa) = still-Maintains _ (λ w. refl)
  service_account_after-Maintains key (err e) =
      if-Maintains (is_not_found e) _ _ (new_service_account-Maintains key)
        (still-Maintains _ (λ w. refl))
  service_account_after-Maintains key (panic m) = still-Maintains _ (λ w. refl)

  new_role-Maintains : (key : Key) → Maintains Holds (new_role client settings instance key)
  unfolding new_role
  new_role-Maintains key =
      bind-Maintains _ _ (named-Maintains _ _ (still-Maintains _ (λ w. refl))) (λ role.
        then-Maintains _ _ (named-Maintains _ _ (create-Maintains roles I spares_roles role))
          (still-Maintains _ (λ w. refl)))

  update_role-Maintains :
      (role : Role) → Maintains Holds (update_role client settings instance role)
  unfolding update_role
  update_role-Maintains role = lift-Maintains _ _ (λ changed.
      then-Maintains _ _ (named-Maintains _ _ (update-Maintains roles I spares_roles changed))
        (still-Maintains _ (λ w. refl)))

  role_after-Maintains :
      (key : Key) (got : Result Role)
      → Maintains Holds (role_after client settings instance key got)
  unfolding role_after
  role_after-Maintains key (ok role) = update_role-Maintains role
  role_after-Maintains key (err e) =
      if-Maintains (is_not_found e) _ _ (new_role-Maintains key) (still-Maintains _ (λ w. refl))
  role_after-Maintains key (panic m) = still-Maintains _ (λ w. refl)

  new_role_binding-Maintains :
      (key : Key) (sa : ServiceAccount) (role : Role)
      → Maintains Holds (new_role_binding client settings instance key sa role)
  unfolding new_role_binding
  new_role_binding-Maintains key sa role =
      bind-Maintains _ _ (named-Maintains _ _ (still-Maintains _ (λ w. refl)))
        (λ rb. named-Maintains _ _ (create-Maintains bindings I spares_bindings rb))

  role_binding_after-Maintains :
      (key : Key) (sa : ServiceAccount) (role : Role) (got : Result RoleBinding)
      → Maintains Holds (role_binding_after client settings instance key sa role got)
  unfolding role_binding_after
  role_binding_after-Maintains key sa role (ok rb) = still-Maintains _ (λ w. refl)
  role_binding_after-Maintains key sa role (err e) =
      if-Maintains (is_not_found e) _ _ (new_role_binding-Maintains key sa role)
        (still-Maintains _ (λ w. refl))
  role_binding_after-Maintains key sa role (panic m) = still-Maintains _ (λ w. refl)

  bind_role-Maintains :
      (sa : ServiceAccount) (role : Role)
      → Maintains Holds (bind_role client settings instance sa role)
  unfolding bind_role
  bind_role-Maintains sa role = lift-Maintains _ _ (λ name.
      caught-Maintains _ _ (get-Maintains bindings I (key_in instance name))
        (role_binding_after-Maintains (key_in instance name) sa role))

  make_role-Maintains :
      (sa : ServiceAccount) → Maintains Holds (make_role client settings instance sa)
  unfolding make_role
  make_role-Maintains sa = lift-Maintains _ _ (λ name.
      caught-Maintains _ _ (get-Maintains roles I (key_in instance name)) (λ got.
        bind-Maintains _ _ (role_after-Maintains (key_in instance name) got)
          (bind_role-Maintains sa)))

  -- `createRBAC` maintains what depends on no service account, role or role binding.
  pub create_rbac-Maintains : Maintains Holds (create_rbac client settings instance)
  unfolding create_rbac
  create_rbac-Maintains = lift-Maintains _ _ (λ name.
      caught-Maintains _ _ (get-Maintains accounts I (key_in instance name)) (λ got.
        bind-Maintains _ _ (service_account_after-Maintains (key_in instance name) got)
          make_role-Maintains))
