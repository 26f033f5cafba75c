-- ===== src/Controller/CronStrategies/Rbac/Granted.antt =====
-- What a whole run of `createRBAC` of pkg/controllers/cron_strategies.go stores.
use kidle.Prelude.{String, ◌≡◌, refl, ap, ◌∙◌, some}
use kidle.Exec.{ok, ◌>>=◌}
use kidle.Dns.{to_dns_name}
use kidle.Objects.{
  ServiceAccount, Role, RoleBinding, service_account_object, role_object, role_binding_object,
}
use kidle.Api.{IdlingResource}
use kidle.Cluster.{
  Cluster, Client, ObjectClient, Slot, Stored, put, service_account_slot, role_slot,
  role_binding_slot, IsLawful,
}
use kidle.Meta.{Key, MetaObject}
use kidle.Idler.Change.Updated.{put_self}
use kidle.Controller.State.{World, calling, caught}
use kidle.Controller.Steps.{lift_step, caught_step, bind_step}
use kidle.Controller.CronStrategies.Rbac.{
  key_in, service_account_after, role_after, role_binding_after, bind_role, make_role, create_rbac,
}
use kidle.Controller.CronStrategies.Rbac.Laws.{
  Wrote, Grants, Bound, service_account_after-ok, role_after-ok, role_binding_after-ok,
}
use kidle.Controller.CronStrategies.Values.{Settings, KeepsKey, get_sa_name}

-- The three objects are stored under their names, the role grants what kidlectl needs on the
-- instance, the service account is bound to it by a binding that is new, and no other object has
-- changed.
pub record Granted (settings : Settings) (instance : IdlingResource) (before after : Cluster)
    : Type 0 where
  pub sa_name : String
  pub role_name : String
  pub rb_name : String
  pub sa_named : get_sa_name instance.meta.name ≡ ok sa_name
  pub role_named : to_dns_name "kidle" instance.meta.name "role" ≡ ok role_name
  pub rb_named : to_dns_name "kidle" instance.meta.name "rb" ≡ ok rb_name
  pub sa : ServiceAccount
  pub role : Role
  pub rb : RoleBinding
  pub sa_called : sa.meta.name ≡ sa_name
  pub role_called : role.meta.name ≡ role_name
  pub grants : Grants instance role
  pub bound : Bound settings instance (key_in instance rb_name) sa role before rb
  pub written : after ≡ record before {
    service_accounts = put (key_in instance sa_name) (some sa) before.service_accounts;
    roles = put (key_in instance role_name) (some role) before.roles;
    role_bindings = put (key_in instance rb_name) (some rb) before.role_bindings;
  }

-- An object that has been stored under a key has the name of the key.
stored-name :
    {W O : Type 0} {view : W → Cluster} {slot : Slot O} {object : MetaObject O}
    {c : ObjectClient W O} (law : IsLawful view slot object c) (key : Key) (w : W) (o : O)
    (before : Stored O)
    → slot.read (view w) ≡ put key (some o) before
    → (object.meta o).name ≡ key.name
stored-name law key w o before written =
    ap (λ (k : Key). k.name) (law.get_key key w o (rw written (put_self key (some o) before)))

module _ {W : Type 0} {view : W → Cluster} (client : Client W) (settings : Settings)
    (keeps : KeepsKey settings) (instance : IdlingResource)
    (accounts : IsLawful view service_account_slot service_account_object client.service_accounts)
    (roles : IsLawful view role_slot role_object client.roles)
    (bindings : IsLawful view role_binding_slot role_binding_object client.role_bindings) where
  bind_role-ok :
      (sa : ServiceAccount) (role : Role) (w x : World W) (u : Unit {0})
      → bind_role client settings instance sa role w ≡ (ok u, x)
      → (rb_name : String) × (to_dns_name "kidle" instance.meta.name "rb" ≡ ok rb_name)
        × (rb : RoleBinding) × Wrote role_binding_slot
            (key_in instance rb_name)
            rb
            (view w.cluster)
            (view x.cluster)
        × Bound settings instance (key_in instance rb_name) sa role (view w.cluster) rb
  unfolding bind_role
  bind_role-ok sa role w x u e =
      let after = role_binding_after client settings instance in
      let read = λ (name : String). calling (client.role_bindings.get (key_in instance name)) in
      let (rb_name, named, rest) =
        lift_step (λ name. caught (read name) >>= after (key_in instance name) sa role)
          (to_dns_name "kidle" instance.meta.name "rb") w x u e in
      let run = caught_step (after (key_in instance rb_name) sa role) (read rb_name) w x u rest in
      let (rb, written, bound) =
        role_binding_after-ok client settings keeps instance bindings (key_in instance rb_name) sa
          role w x u _ refl run in
      (rb_name, named, rb, written, bound)

  make_role-ok :
      (sa : ServiceAccount) (w x : World W) (u : Unit {0})
      → make_role client settings instance sa w ≡ (ok u, x)
      → (role_name : String) × (to_dns_name "kidle" instance.meta.name "role" ≡ ok role_name)
        × (role : Role) × Grants instance role
        × (m : World W) × Wrote role_slot
            (key_in instance role_name)
            role
            (view w.cluster)
            (view m.cluster)
        × (bind_role client settings instance sa role m ≡ (ok u, x))
  unfolding make_role
  make_role-ok sa w x u e =
      let after = role_after client settings instance in
      let bind = bind_role client settings instance sa in
      let read = λ (name : String). calling (client.roles.get (key_in instance name)) in
      let (role_name, named, rest) =
        lift_step
          (λ name. caught (read name) >>= (λ got. after (key_in instance name) got >>= bind))
          (to_dns_name "kidle" instance.meta.name "role") w x u e in
      let run =
        caught_step (λ got. after (key_in instance role_name) got >>= bind) (read role_name) w x u
          rest in
      let (role, made, binds) =
        bind_step bind (after (key_in instance role_name) (read role_name w).0) (read role_name w).1
          x u run in
      let (written, grants) =
        role_after-ok client settings keeps instance roles (key_in instance role_name) w _ role _
          refl made in
      (role_name, named, role, grants, _, written, binds)

  -- A `createRBAC` that succeeds has stored a service account, a role whose first rule grants get,
  -- patch and update on the instance, and a role binding, each under its name, and has changed no
  -- other object. A role binding that was not there has the service account as its only subject, and
  -- refers to the role by its name and its kind.
  pub create_rbac-Granted :
      (w x : World W) (u : Unit {0})
      → create_rbac client settings instance w ≡ (ok u, x)
      → Granted settings instance (view w.cluster) (view x.cluster)
  unfolding create_rbac
  create_rbac-Granted w x u e =
      let after = service_account_after client settings instance in
      let make = make_role client settings instance in
      let read = λ (name : String). calling (client.service_accounts.get (key_in instance name)) in
      let (sa_name, sa_named, rest) =
        lift_step
          (λ name. caught (read name) >>= (λ got. after (key_in instance name) got >>= make))
          (get_sa_name instance.meta.name) w x u e in
      let run =
        caught_step (λ got. after (key_in instance sa_name) got >>= make) (read sa_name) w x u
          rest in
      let (sa, made, makes) =
        bind_step make (after (key_in instance sa_name) (read sa_name w).0) (read sa_name w).1 x u
          run in
      let first =
        service_account_after-ok client settings keeps instance accounts (key_in instance sa_name) w
          _ sa _ refl made in
      let (role_name, role_named, role, grants, m, second, binds) = make_role-ok sa _ x u makes in
      let (rb_name, rb_named, rb, third, bound) = bind_role-ok sa role m x u binds in
      let written = third ∙ rw (second, first) refl in
      record {
        sa_name = sa_name;
        role_name = role_name;
        rb_name = rb_name;
        sa_named = sa_named;
        role_named = role_named;
        rb_named = rb_named;
        sa = sa;
        role = role;
        rb = rb;
        sa_called =
            stored-name accounts (key_in instance sa_name) x.cluster sa
              (view w.cluster).service_accounts (ap (λ (c : Cluster). c.service_accounts) written);
        role_called =
            stored-name roles (key_in instance role_name) x.cluster role (view w.cluster).roles
              (ap (λ (c : Cluster). c.roles) written);
        grants = grants;
        bound = rw (second, first) at bound;
        written = written;
      }
