-- ===== src/Controller/CronStrategies/Rbac/Laws.antt =====
-- What `createRBAC` of pkg/controllers/cron_strategies.go stores.
use kidle.Prelude.{
  ◌≡◌, refl, ap, sym, ◌∙◌, false, some, List, [], ◌∷◌, arith, inl, inr, ◌⊎◌, Bool-cases,
}
use kidle.Exec.{is_not_found, Result, ok, err, panic}
use kidle.Meta.{Key, key_of, ObjectMeta}
use kidle.Objects.{
  ServiceAccount, Role, RoleBinding, PolicyRule, service_account_object, role_object,
  role_binding_object,
}
use kidle.Api.{IdlingResource}
use kidle.Cluster.{
  Cluster, Client, Slot, put, is_gone, service_account_slot, role_slot, role_binding_slot, IsLawful,
}
use kidle.Idler.Change.Updated.{put_stored}
use kidle.Controller.State.{World}
use kidle.Controller.CronStrategies.Rbac.{
  policy_rule, new_service_account, service_account_after, new_role, update_role, role_after,
  binding, new_role_binding, role_binding_after,
}
use kidle.Controller.CronStrategies.Values.{Settings, KeepsKey, fresh_meta}

-- The object under the key is `o`, and no other object has changed.
abbrev pub Wrote : {O : Type 0} → Slot O → Key → O → Cluster → Cluster → Type 0
Wrote slot key o before after = after ≡ slot.write (put key (some o) (slot.read before)) before

Wrote-refl :
    {O : Type 0} (slot : Slot O) (key : Key) (o : O) (c : Cluster)
    → slot.read c key ≡ some o
    → Wrote slot key o c c
Wrote-refl slot key o c there =
    sym (slot.write-read c)
    ∙ ap (λ n. slot.write n c) (sym (put_stored key (slot.read c)))
    ∙ ap (λ p. slot.write (put key p (slot.read c)) c) there

-- The first rule of the role grants the reading and the writing of the instance, and of no other
-- IdlingResource.
abbrev pub Grants : IdlingResource → Role → Type 0
Grants instance role =
    (rules : List PolicyRule) × (role.rules
      ≡ record {
        verbs = "get" ∷ "patch" ∷ "update" ∷ [];
        api_groups = "kidle.kidle.dev" ∷ [];
        resources = "idlingresources" ∷ [];
        resource_names = instance.meta.name ∷ [];
      }
        ∷ rules)

-- The binding gives the service account, and no one else, the role.
pub record Binds (settings : Settings) (sa : ServiceAccount) (role : Role) (rb : RoleBinding)
    : Type 0 where
  pub subjects : rb.subjects ≡ record { kind = "ServiceAccount"; name = sa.meta.name } ∷ []
  pub group : rb.role_ref.api_group ≡ settings.group_of_role role
  pub kind : rb.role_ref.kind ≡ "Role"
  pub name : rb.role_ref.name ≡ role.meta.name

-- A binding that was there is left as it was; a new one binds the service account to the role.
abbrev pub Bound :
    Settings → IdlingResource → Key → ServiceAccount → Role → Cluster → RoleBinding → Type 0
Bound settings instance key sa role before rb =
    (before.role_bindings key ≡ some rb) ⊎ Binds settings sa role rb

module _ {W : Type 0} {view : W → Cluster} (client : Client W) (settings : Settings)
    (keeps : KeepsKey settings) (instance : IdlingResource) where
  module _
      (law : IsLawful view service_account_slot service_account_object
        client.service_accounts) where
    new_service_account-ok :
        (key : Key) (w x : World W) (sa : ServiceAccount) (m : Result ObjectMeta)
        → settings.set_controller_reference instance (fresh_meta key) ≡ m
        → new_service_account client settings instance key w ≡ (ok sa, x)
        → Wrote service_account_slot key sa (view w.cluster) (view x.cluster)
    unfolding new_service_account
    new_service_account-ok key w x sa (ok m) g e =
        let made : record { meta = m } ≡ sa = ground arith in
        let stored : (client.service_accounts.create sa w.cluster).0 ≡ ok tt = ground arith in
        let moved : x.cluster ≡ (client.service_accounts.create sa w.cluster).1 = ground arith in
        let named : key_of sa.meta ≡ key = rw (← made) (keeps instance (fresh_meta key) m g) in
        ap view moved ∙ law.create-ok sa w.cluster tt stored ∙ rw named refl
    new_service_account-ok key w x sa (err m) g e = ground arith
    new_service_account-ok key w x sa (panic m) g e = ground arith

    pub service_account_after-ok :
        (key : Key) (w x : World W) (sa : ServiceAccount) (got : Result ServiceAccount)
        → (client.service_accounts.get key w.cluster).0 ≡ got
        → service_account_after client settings instance key got
            (record w { cluster = (client.service_accounts.get key w.cluster).1 })
          ≡ (ok sa, x)
        → Wrote service_account_slot key sa (view w.cluster) (view x.cluster)
    unfolding service_account_after
    service_account_after-ok key w x sa (ok o) g e =
        let same : o ≡ sa = ground arith in
        let moved : x.cluster ≡ (client.service_accounts.get key w.cluster).1 = ground arith in
        ap view moved
        ∙ law.get-view key w.cluster
        ∙ Wrote-refl service_account_slot key sa (view w.cluster)
            (law.get-ok key w.cluster o g ∙ ap some same)
    service_account_after-ok key w x sa (err m) g e = elim (Bool-cases (is_not_found m)) [
      | inl missing ↦
          let read : World W = record w {
            cluster = (client.service_accounts.get key w.cluster).1;
          } in
          let seen : view read.cluster ≡ view w.cluster = law.get-view key w.cluster in
          let run : new_service_account client settings instance key read ≡ (ok sa, x) =
            ground arith in
          rw seen at (new_service_account-ok key read x sa _ refl run)
      | inr other ↦ ground arith
    ]
    service_account_after-ok key w x sa (panic m) g e = ground arith

  module _ (law : IsLawful view role_slot role_object client.roles) where
    new_role-ok :
        (key : Key) (w x : World W) (role : Role) (m : Result ObjectMeta)
        → settings.set_controller_reference instance (fresh_meta key) ≡ m
        → new_role client settings instance key w ≡ (ok role, x)
        → Wrote role_slot key role (view w.cluster) (view x.cluster) × Grants instance role
    unfolding new_role
    new_role-ok key w x role (ok m) g e =
        let made : record { meta = m; rules = policy_rule instance.meta.name ∷ [] } ≡ role =
          ground arith in
        let stored : (client.roles.create role w.cluster).0 ≡ ok tt = ground arith in
        let moved : x.cluster ≡ (client.roles.create role w.cluster).1 = ground arith in
        let named : key_of role.meta ≡ key = rw (← made) (keeps instance (fresh_meta key) m g) in
        (
          ap view moved ∙ law.create-ok role w.cluster tt stored ∙ rw named refl,
          ([], rw (← made) refl),
        )
    new_role-ok key w x role (err m) g e = ground arith
    new_role-ok key w x role (panic m) g e = ground arith

    update_role-ok :
        (key : Key) (w x : World W) (old role : Role) (rules : List PolicyRule)
        → old.rules ≡ rules
        → role_slot.read (view w.cluster) key ≡ some old
        → update_role client settings instance old w ≡ (ok role, x)
        → Wrote role_slot key role (view w.cluster) (view x.cluster) × Grants instance role
    unfolding update_role
    update_role-ok key w x old role [] g there e = ground arith
    update_role-ok key w x old role (r ∷ rules) g there e =
        let made : record old { rules = policy_rule instance.meta.name ∷ rules } ≡ role =
          ground arith in
        let stored : (client.roles.update role w.cluster).0 ≡ ok tt = ground arith in
        let moved : x.cluster ≡ (client.roles.update role w.cluster).1 = ground arith in
        let named : key_of role.meta ≡ key = rw (← made) (law.get_key key w.cluster old there) in
        let lives : is_gone role.meta ≡ false =
          rw (← made) (law.get_lives key w.cluster old there) in
        (
          ap view moved ∙ law.update-ok role w.cluster tt stored ∙ rw (named, lives) refl,
          (rules, rw (← made) refl),
        )

    pub role_after-ok :
        (key : Key) (w x : World W) (role : Role) (got : Result Role)
        → (client.roles.get key w.cluster).0 ≡ got
        → role_after client settings instance key got
            (record w { cluster = (client.roles.get key w.cluster).1 })
          ≡ (ok role, x)
        → Wrote role_slot key role (view w.cluster) (view x.cluster) × Grants instance role
    unfolding role_after
    role_after-ok key w x role (ok o) g e =
        let read : World W = record w { cluster = (client.roles.get key w.cluster).1 } in
        let seen : view read.cluster ≡ view w.cluster = law.get-view key w.cluster in
        let there = law.get-ok key w.cluster o g in
        let run : update_role client settings instance o read ≡ (ok role, x) = ground arith in
        rw seen at (update_role-ok key read x o role o.rules refl (rw seen there) run)
    role_after-ok key w x role (err m) g e = elim (Bool-cases (is_not_found m)) [
      | inl missing ↦
          let read : World W = record w { cluster = (client.roles.get key w.cluster).1 } in
          let seen : view read.cluster ≡ view w.cluster = law.get-view key w.cluster in
          let run : new_role client settings instance key read ≡ (ok role, x) = ground arith in
          rw seen at (new_role-ok key read x role _ refl run)
      | inr other ↦ ground arith
    ]
    role_after-ok key w x role (panic m) g e = ground arith

  module _ (law : IsLawful view role_binding_slot role_binding_object client.role_bindings) where
    new_role_binding-ok :
        (key : Key) (sa : ServiceAccount) (role : Role) (w x : World W) (u : Unit {0})
        (m : Result ObjectMeta)
        → settings.set_controller_reference instance (fresh_meta key) ≡ m
        → new_role_binding client settings instance key sa role w ≡ (ok u, x)
        → (rb : RoleBinding) × Wrote role_binding_slot key rb (view w.cluster) (view x.cluster)
          × Binds settings sa role rb
    unfolding new_role_binding
    new_role_binding-ok key sa role w x u (ok m) g e =
        let rb = binding settings sa role m in
        let stored : (client.role_bindings.create rb w.cluster).0 ≡ ok tt = ground arith in
        let moved : x.cluster ≡ (client.role_bindings.create rb w.cluster).1 = ground arith in
        let named : key_of rb.meta ≡ key = keeps instance (fresh_meta key) m g in
        (
          rb,
          ap view moved ∙ law.create-ok rb w.cluster tt stored ∙ rw named refl,
          record { subjects = refl; group = refl; kind = refl; name = refl },
        )
    new_role_binding-ok key sa role w x u (err m) g e = ground arith
    new_role_binding-ok key sa role w x u (panic m) g e = ground arith

    pub role_binding_after-ok :
        (key : Key) (sa : ServiceAccount) (role : Role) (w x : World W) (u : Unit {0})
        (got : Result RoleBinding)
        → (client.role_bindings.get key w.cluster).0 ≡ got
        → role_binding_after client settings instance key sa role got
            (record w { cluster = (client.role_bindings.get key w.cluster).1 })
          ≡ (ok u, x)
        → (rb : RoleBinding) × Wrote role_binding_slot key rb (view w.cluster) (view x.cluster)
          × Bound settings instance key sa role (view w.cluster) rb
    unfolding role_binding_after
    role_binding_after-ok key sa role w x u (ok rb) g e =
        let moved : x.cluster ≡ (client.role_bindings.get key w.cluster).1 = ground arith in
        let there = law.get-ok key w.cluster rb g in
        (
          rb,
          ap view moved
              ∙ law.get-view key w.cluster
              ∙ Wrote-refl role_binding_slot key rb (view w.cluster) there,
          inl there,
        )
    role_binding_after-ok key sa role w x u (err m) g e = elim (Bool-cases (is_not_found m)) [
      | inl missing ↦
          let read : World W = record w { cluster = (client.role_bindings.get key w.cluster).1 } in
          let seen : view read.cluster ≡ view w.cluster = law.get-view key w.cluster in
          let run : new_role_binding client settings instance key sa role read ≡ (ok u, x) =
            ground arith in
          let (rb, written, bound) = new_role_binding-ok key sa role read x u _ refl run in
          (rb, rw seen at written, inr bound)
      | inr other ↦ ground arith
    ]
    role_binding_after-ok key sa role w x u (panic m) g e = ground arith
