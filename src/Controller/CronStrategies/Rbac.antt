-- ===== src/Controller/CronStrategies/Rbac.antt =====
-- `createRBAC`: the service account, the role and the role binding of the CronJobs.
pub mod Laws
pub mod Granted
pub mod Frame
use kidle.Prelude.{String, [], ◌∷◌, if◌then◌else◌}
use kidle.Exec.{errorf, is_not_found, Result, ok, err, panic, Exec, pure, raise, lift, ◌>>=◌, ◌>>◌}
use kidle.Dns.{to_dns_name}
use kidle.Meta.{Key, ObjectMeta}
use kidle.Objects.{ServiceAccount, PolicyRule, Role, RoleBinding}
use kidle.Api.{IdlingResource}
use kidle.Cluster.{Client}
use kidle.Controller.State.{World, calling, on_error, caught}
use kidle.Controller.CronStrategies.Values.{Settings, fresh_meta, get_sa_name, owned_by}

abbrev pub policy_rule : String → PolicyRule
policy_rule instance_name = record {
  verbs = "get" ∷ "patch" ∷ "update" ∷ [];
  api_groups = "kidle.kidle.dev" ∷ [];
  resources = "idlingresources" ∷ [];
  resource_names = instance_name ∷ [];
}

-- `role.Rules[0] = policyRule`
abbrev pub first_rule_set : PolicyRule → Role → Result Role
first_rule_set rule role = elim role.rules [
  | [] ↦ panic "index out of range"
  | r ∷ rules ↦ ok (record role { rules = rule ∷ rules })
]

abbrev pub key_in : IdlingResource → String → Key
key_in instance name = record { namespace = instance.meta.namespace; name = name }

-- The binding that the code makes.
abbrev pub binding : Settings → ServiceAccount → Role → ObjectMeta → RoleBinding
binding settings sa role m = record {
  meta = m;
  subjects = record { kind = "ServiceAccount"; name = sa.meta.name } ∷ [];
  role_ref = record {
    api_group = settings.group_of_role role;
    kind = "Role";
    name = role.meta.name;
  };
}

module _ {W : Type 0} (client : Client W) (settings : Settings) (instance : IdlingResource) where
  new_service_account : Key → Exec (World W) ServiceAccount
  new_service_account key = do
    sa ←
        on_error
          (lift (
            owned_by (λ m. record { meta = m })
              (settings.set_controller_reference instance (fresh_meta key))))
          (λ x. raise (errorf "unable to set controller reference for sa" x))
    on_error (calling (client.service_accounts.create sa))
        (λ x. raise (errorf "unable to create sa" x))
    pure sa

  pub service_account_after : Key → Result ServiceAccount → Exec (World W) ServiceAccount
  unfolding new_service_account
  service_account_after key (ok sa) = pure sa
  service_account_after key (err e) =
      if is_not_found e then new_service_account key else raise (errorf "unable to get sa" e)
  service_account_after key (panic m) = lift (panic m)

  new_role : Key → Exec (World W) Role
  new_role key = do
    role ←
        on_error
          (lift (
            owned_by (λ m. record { meta = m; rules = policy_rule instance.meta.name ∷ [] })
              (settings.set_controller_reference instance (fresh_meta key))))
          (λ x. raise (errorf "unable to set controller reference for role" x))
    on_error (calling (client.roles.create role)) (λ x. raise (errorf "unable to create role" x))
    pure role

  update_role : Role → Exec (World W) Role
  update_role role = do
    changed ← lift (first_rule_set (policy_rule instance.meta.name) role)
    on_error (calling (client.roles.update changed)) (λ x. raise (errorf "unable to update role" x))
    pure changed

  pub role_after : Key → Result Role → Exec (World W) Role
  unfolding new_role update_role
  role_after key (ok role) = update_role role
  role_after key (err e) =
      if is_not_found e then new_role key else raise (errorf "unable to get role" e)
  role_after key (panic m) = lift (panic m)

  new_role_binding : Key → ServiceAccount → Role → Exec (World W) (Unit {0})
  new_role_binding key sa role = do
    rb ←
        on_error
          (lift (
            owned_by (binding settings sa role)
              (settings.set_controller_reference instance (fresh_meta key))))
          (λ x. raise (errorf "unable to set controller reference for rolebinding" x))
    on_error (calling (client.role_bindings.create rb))
        (λ x. raise (errorf "unable to create rolebinding" x))

  pub role_binding_after :
      Key → ServiceAccount → Role → Result RoleBinding → Exec (World W) (Unit {0})
  unfolding new_role_binding
  role_binding_after key sa role (ok rb) = pure tt
  role_binding_after key sa role (err e) =
      if is_not_found e
      then new_role_binding key sa role
      else raise (errorf "unable to get rolebinding" e)
  role_binding_after key sa role (panic m) = lift (panic m)

  -- `createRBAC`, from its last part to the whole.
  bind_role : ServiceAccount → Role → Exec (World W) (Unit {0})
  unfolding role_binding_after
  bind_role sa role = do
    rb_name ← lift (to_dns_name "kidle" instance.meta.name "rb")
    got_rb ← caught (calling (client.role_bindings.get (key_in instance rb_name)))
    role_binding_after (key_in instance rb_name) sa role got_rb

  make_role : ServiceAccount → Exec (World W) (Unit {0})
  unfolding role_after bind_role
  make_role sa = do
    role_name ← lift (to_dns_name "kidle" instance.meta.name "role")
    got_role ← caught (calling (client.roles.get (key_in instance role_name)))
    role ← role_after (key_in instance role_name) got_role
    bind_role sa role

  unfoldable pub create_rbac : Exec (World W) (Unit {0})
  unfolding service_account_after make_role
  create_rbac = do
    sa_name ← lift (get_sa_name instance.meta.name)
    got_sa ← caught (calling (client.service_accounts.get (key_in instance sa_name)))
    sa ← service_account_after (key_in instance sa_name) got_sa
    make_role sa
