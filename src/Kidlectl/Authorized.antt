-- ===== src/Kidlectl/Authorized.antt =====
-- The requests of kidlectl under the Role that `createRBAC` of pkg/controllers/cron_strategies.go
-- makes for the CronJobs: kidlectl run by a CronJob acts as a service account that has this Role.
use kidle.Prelude.{
  String, ◌≡◌, refl, ap, ◌∙◌, Bool, true, some, List, [], ◌∷◌, arith, inl, inr, if◌then◌else◌,
  Bool-cases, eq_refl,
}
use kidle.Exec.{Error, api, other_reason, Result, ok, err, panic, raise}
use kidle.Array.{contains_string}
use kidle.Dns.{to_dns_name}
use kidle.Meta.{Key, key_of}
use kidle.Objects.{PolicyRule, Role, service_account_object, role_object, role_binding_object}
use kidle.Api.{IdlingResource, idling_resource_object}
use kidle.Api.Registration.{group_version}
use kidle.Cluster.{
  Cluster, Client, ObjectClient, IsLawful, idling_resource_slot, service_account_slot, role_slot,
  role_binding_slot,
}
use kidle.Idler.Change.Updated.{put_self}
use kidle.Controller.State.{World}
use kidle.Controller.CronStrategies.Values.{Settings, KeepsKey}
use kidle.Controller.CronStrategies.Rbac.{key_in, policy_rule, create_rbac}
use kidle.Controller.CronStrategies.Rbac.Laws.{Grants}
use kidle.Controller.CronStrategies.Rbac.Granted.{create_rbac-Granted}
use kidle.Kidlectl.Client.{apply_desired_idle_state, same_flag}

-- A request as the authorizer of the API server sees it.
pub record Request : Type 0 where
  pub verb : String
  pub api_group : String
  pub resource : String
  pub name : String

-- One for an IdlingResource, in the group under which the type is registered.
abbrev pub request : String → String → Request
request verb name = record {
  verb = verb;
  api_group = group_version.group;
  resource = "idlingresources";
  name = name;
}

-- RBAC of Kubernetes, as far as it permits: a rule of the Role that lists the verb, the group, the
-- resource and the name.
pub record IsRbac (permits : List PolicyRule → Request → Bool) : Type 0 where
  pub permits_listed :
      (rule : PolicyRule) (rules : List PolicyRule) (r : Request)
      → contains_string rule.verbs r.verb ≡ true
      → contains_string rule.api_groups r.api_group ≡ true
      → contains_string rule.resources r.resource ≡ true
      → contains_string rule.resource_names r.name ≡ true
      → permits (rule ∷ rules) r ≡ true

abbrev forbidden : Error
forbidden = api other_reason "forbidden"

-- The client of a process that has these rules and no others. The names of new objects are not
-- part of a request.
abbrev pub authorized :
    {W : Type 0}
    → (List PolicyRule → Request → Bool)
    → List PolicyRule
    → ObjectClient W IdlingResource
    → ObjectClient W IdlingResource
authorized permits rules c = record {
  get = λ k. if permits rules (request "get" k.name) then c.get k else raise forbidden;
  update =
      λ i. if permits rules (request "update" i.meta.name) then c.update i else raise forbidden;
  create = λ i. if permits rules (request "create" "") then c.create i else raise forbidden;
  delete =
      λ i. if permits rules (request "delete" i.meta.name) then c.delete i else raise forbidden;
}

module _ (permits : List PolicyRule → Request → Bool) (rbac : IsRbac permits)
    (instance : IdlingResource) (role : Role) (grants : Grants instance role) where
  listed : contains_string (instance.meta.name ∷ []) instance.meta.name ≡ true
  unfolding contains_string
  listed = ground (arith, eq_refl instance.meta.name)

  permits_get : permits role.rules (request "get" instance.meta.name) ≡ true
  unfolding contains_string
  permits_get =
      let (rules, first) = grants in
      rw first (
        rbac.permits_listed (policy_rule instance.meta.name) rules
          (request "get" instance.meta.name) refl refl refl listed)

  permits_update : permits role.rules (request "update" instance.meta.name) ≡ true
  unfolding contains_string
  permits_update =
      let (rules, first) = grants in
      rw first (
        rbac.permits_listed (policy_rule instance.meta.name) rules
          (request "update" instance.meta.name) refl refl refl listed)

  module _ {W : Type 0} {view : W → Cluster} {c : ObjectClient W IdlingResource}
      (law : IsLawful view idling_resource_slot idling_resource_object c) where
    apply_same_at :
        (idle : Bool) (req : Key) (w : W) (got : Result IdlingResource)
        → req.name ≡ instance.meta.name
        → (c.get req w).0 ≡ got
        → apply_desired_idle_state (authorized permits role.rules c) idle req w
          ≡ apply_desired_idle_state c idle req w
    unfolding apply_desired_idle_state
    apply_same_at idle req w (ok ir) named g =
        let may : permits role.rules (request "get" req.name) ≡ true = rw named permits_get in
        let key = law.get_key req w ir (law.get-ok req w ir g) in
        let same : ir.meta.name ≡ instance.meta.name = ap (λ (k : Key). k.name) key ∙ named in
        let writes : permits role.rules (request "update" ir.meta.name) ≡ true =
          rw same permits_update in
        elim (Bool-cases (same_flag ir.spec.idle idle)) [
          | inl set ↦ rw (may, g, set) refl
          | inr other ↦ rw (may, g, other, writes) refl
        ]
    apply_same_at idle req w (err e) named g =
        let may : permits role.rules (request "get" req.name) ≡ true = rw named permits_get in
        rw (may, g) refl
    apply_same_at idle req w (panic m) named g =
        let may : permits role.rules (request "get" req.name) ≡ true = rw named permits_get in
        rw (may, g) refl

module _ {W : Type 0} {view : W → Cluster} (client : Client W) (settings : Settings)
    (keeps : KeepsKey settings)
    (instances : IsLawful view idling_resource_slot idling_resource_object client.idling_resources)
    (accounts : IsLawful view service_account_slot service_account_object client.service_accounts)
    (roles : IsLawful view role_slot role_object client.roles)
    (bindings : IsLawful view role_binding_slot role_binding_object client.role_bindings)
    (permits : List PolicyRule → Request → Bool) (rbac : IsRbac permits) where
  -- The Role that a `createRBAC` that succeeds has stored suffices for its purpose: with the rules
  -- of it and no others, kidlectl's `ApplyDesiredIdleState` on the instance does, in every state,
  -- what it does with all rights.
  pub create_rbac_suffices :
      (instance : IdlingResource) (w x : World W) (u : Unit {0})
      → create_rbac client settings instance w ≡ (ok u, x)
      → (name : String) × (to_dns_name "kidle" instance.meta.name "role" ≡ ok name)
        × (role : Role) × ((view x.cluster).roles (key_in instance name) ≡ some role)
        × ((idle : Bool) (v : W)
            → apply_desired_idle_state
                (authorized permits role.rules client.idling_resources)
                idle
                (key_of instance.meta)
                v
              ≡ apply_desired_idle_state client.idling_resources idle (key_of instance.meta) v)
  create_rbac_suffices instance w x u e =
      let g = create_rbac-Granted client settings keeps instance accounts roles bindings w x u e in
      (
        g.role_name,
        g.role_named,
        g.role,
        ap (λ (c : Cluster). c.roles (key_in instance g.role_name)) g.written
            ∙ put_self (key_in instance g.role_name) (some g.role) (view w.cluster).roles,
        λ idle v.
            apply_same_at permits rbac instance g.role g.grants instances idle
              (key_of instance.meta) v _ refl refl,
      )
