-- ===== src/Kidlectl/Client.antt =====
-- cmd/kidlectl/pkg/kidleclient.go: the client and its two operations.
pub mod Laws
pub mod Creation
pub mod Ignored
pub mod Effect
use Prim.Native.String.{◌++◌ as ◌<>◌}
use kidle.Prelude.{
  String, Bool, true, false, ◌&&◌, ◌||◌, not, Option, none, some, List, [], ◌∷◌, ◌++◌, ◌==◌,
  if◌then◌else◌,
}
use kidle.Exec.{Error, errorf, plain, Result, ok, err, panic, Exec, lift, pure, raise, ◌>>=◌, ◌>>◌}
use kidle.Array.{contains_string}
use kidle.Strings.{split}
use kidle.Meta.{Key, ObjectMeta}
use kidle.Api.{CrossVersionObjectReference, IdlingResourceSpec, IdlingResource}
use kidle.Cluster.{ObjectClient}
use kidle.Controller.State.{on_error}
use kidle.Kidlectl.Resources.{Discovery, get_allowed_resources, print_allowed_resources}

-- The libraries that `NewKidleClient` calls: the namespace of the current context, the connection
-- to a cluster, and the clients made of it.
pub record Connecting (Config Cluster Discoverer : Type 0) : Type 0 where
  pub current_namespace : String → Result String
  pub client_config : String → Result Config
  pub add_to_scheme : Result (Unit {0})
  pub new_client : Config → Result Cluster
  pub new_discovery_client : Config → Result Discoverer

-- `KidleClient`
pub record KidleClient (Cluster Discoverer : Type 0) : Type 0 where
  pub client : Cluster
  pub discovery_client : Discoverer
  pub namespace : String

module _ {Config Cluster Discoverer : Type 0}
    (libraries : Connecting Config Cluster Discoverer) where
  -- A step that changes nothing that the code keeps.
  abbrev step : {A : Type 0} → String → Result A → Exec (Unit {0}) A
  step text result = on_error (lift result) (λ e. raise (errorf text e))

  connect : String → Exec (Unit {0}) (KidleClient Cluster Discoverer)
  connect namespace = do
    current ← step "error when getting current namespace" (libraries.current_namespace namespace)
    config ← step "error when creating restConfig" (libraries.client_config namespace)
    step "error when adding kidle to Scheme" libraries.add_to_scheme
    c ← step "error when creating client" (libraries.new_client config)
    d ← step "error when creating discoveryclient" (libraries.new_discovery_client config)
    pure (record { client = c; discovery_client = d; namespace = current })

  -- `NewKidleClient`
  unfoldable pub new_kidle_client : String → Result (KidleClient Cluster Discoverer)
  unfolding connect
  new_kidle_client namespace = (connect namespace tt).0

abbrev pub with_idle : IdlingResource → Bool → IdlingResource
with_idle ir idle = record ir { spec = record (ir.spec) { idle = idle } }

abbrev pub same_flag : Bool → Bool → Bool
same_flag a b = (a && b) || (not a && not b)

module _ {W : Type 0} (c : ObjectClient W IdlingResource) where
  store_idle : Bool → IdlingResource → Exec W Bool
  store_idle idle ir = do
    on_error (c.update (with_idle ir idle))
        (λ e. raise (errorf "unable to update idlingresource" e))
    pure true

  -- `ApplyDesiredIdleState`: whether it has changed the state
  unfoldable pub apply_desired_idle_state : Bool → Key → Exec W Bool
  unfolding store_idle
  apply_desired_idle_state idle req = do
    ir ← on_error (c.get req) (λ e. raise (errorf "unable to get idlingresource" e))
    if same_flag ir.spec.idle idle then pure false else store_idle idle ir

  -- The `Create` call of `CreateIdlingResource`.
  unfoldable pub create_built : IdlingResource → Exec W Bool
  create_built ir = do
    on_error (c.create ir) (λ e. raise (errorf "unable to create idling resource" e))
    pure true

-- The IdlingResource that `CreateIdlingResource` builds.
abbrev pub built : Bool → String → String → Key → IdlingResource
built idle kind name req = record {
  meta = record {
    name = req.name;
    namespace = req.namespace;
    annotations = none;
    finalizers = [];
    deletion_timestamp = none;
    owner_references = [];
  };
  spec = record {
    idling_resource_ref = record { kind = kind; name = name; api_version = "apps/v1" };
    idle = idle;
    idling_strategy = none;
    wakeup_strategy = none;
  };
}

-- The error for a kind that is not allowed. The text that lists the kinds is the format of
-- `fmt.Errorf`, which gets no arguments: `format` is what the library makes of it. The listing may
-- panic.
unfoldable pub invalid_kind : (String → String) → String → Result String → Result Bool
invalid_kind format kind (ok kinds) =
    err (plain (format ("invalid resource kind; got `" <> kind <> "` expected one of: " <> kinds)))
invalid_kind format kind (err e) = err e
invalid_kind format kind (panic m) = panic m

module _ {W : Type 0} (c : ObjectClient W IdlingResource) (discovery : Discovery W)
    (format : String → String) where
  -- The rest for a reference that was split.
  unfoldable pub create_of_values : Bool → String → List String → Key → Exec W Bool
  unfolding invalid_kind create_built
  create_of_values idle ref (kind ∷ name ∷ more) req = do
    resources ←
        on_error (get_allowed_resources discovery)
          (λ e. raise (errorf "unable to get allowed resources" e))
    if contains_string resources kind
        then create_built c (built idle kind name req)
        else lift (invalid_kind format kind (print_allowed_resources resources))
  create_of_values idle ref values req =
      raise (plain ("invalid idlingresource ref; expected <kind>/<name> got " <> ref))

  -- `CreateIdlingResource`
  unfoldable pub create_idling_resource : Bool → String → Key → Exec W Bool
  unfolding create_of_values
  create_idling_resource idle ref req = create_of_values idle ref (split "/" ref) req
