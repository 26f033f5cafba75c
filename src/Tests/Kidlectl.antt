-- ===== src/Tests/Kidlectl.antt =====
-- Runs of kidlectl on the server in memory, and on a cluster that has the kinds of apps/v1.
use mathlib.Core.List.{Perm}
use mathlib.Core.List.Perm
use kidle.Prelude.{
  String, ◌≡◌, refl, true, false, List, [], ◌∷◌, arith, ◌==◌, if◌then◌else◌, Bool-cases, inl, inr,
}
use kidle.Exec.{plain, ok, err}
use kidle.Array.{contains_string}
use kidle.Strings.{split, at_most, insert_sorted, sort_strings}
use kidle.Strings.Split.{lacks}
use kidle.Meta.{Key}
use kidle.Api.{IdlingResource, idling_resource_object}
use kidle.Cluster.{ObjectClient, idling_resource_slot, IsLawful}
use kidle.Controller.State.{World, finished}
use kidle.Controller.Reconcile.{dispatch}
use kidle.Kidlectl.Resources.{
  GroupVersion, ApiResource, ApiResourceList, Discovery, keys_of, print_allowed_resources,
  resource_prefixes, gvk_prefixes, prefixes_from, get_allowed_prefixes, all_prefixes,
  get_allowed_resources,
}
use kidle.Kidlectl.Resources.Laws.{
  print_allowed_resources-Perm, no_capital, lists_lower, short_lower, all_lower,
}
use kidle.Kidlectl.Client.{
  Connecting, KidleClient, new_kidle_client, apply_desired_idle_state, built, create_built,
  create_of_values, create_idling_resource,
}
use kidle.Kidlectl.Client.Laws.{with_resource, Applied, apply_desired_idle_state-Applied}
use kidle.Kidlectl.Client.Ignored.{dispatch-create_idling_resource}
use kidle.Kidlectl.Commands.{NameOptions, Console, Setup, idle_command, wakeup_command}
use kidle.Kidlectl.Commands.Laws.{Ended, idle_command-Ended}
use kidle.Tests.Memory.{Memory, view, client, idling_resources-IsLawful}
use kidle.Tests.Libraries.{libraries}
use kidle.Tests.Data.{server}

abbrev calm : Memory
calm = record server { conflicts = 0 }

abbrev under : String → Key
under name = record { namespace = "apps"; name = name }

abbrev woken : Memory
woken = (apply_desired_idle_state client.idling_resources false (under "night") calm).1

applies :
    apply_desired_idle_state client.idling_resources false (under "night") calm ≡ (ok true, woken)
unfolding apply_desired_idle_state
applies = refl

apply_desired_idle_state-Applied_example :
    Applied (view calm) (view woken) false true (under "night")
apply_desired_idle_state-Applied_example =
    apply_desired_idle_state-Applied idling_resources-IsLawful false true (under "night") calm woken
      applies

abbrev deployments : ApiResource
deployments = record { name = "deployments"; kind = "Deployment"; short_names = "deploy" ∷ [] }

abbrev discovery : Discovery Memory
discovery = record {
  server_groups_and_resources =
      λ w. (ok (record { group_version = "apps/v1"; api_resources = deployments ∷ [] } ∷ []), w);
  parse_group_version = λ s.
      if s == "apps/v1"
      then ok (record { group = "apps"; version = "v1" })
      else err (plain "unexpected GroupVersion string");
  guess_singular = λ gv kind. if kind == "Deployment" then "deployment" else "statefulset";
}

abbrev created : Memory
created =
    (create_idling_resource client.idling_resources discovery (λ text. text) true "deployment/web"
      (under "day") calm).1

creates :
    create_idling_resource client.idling_resources discovery
      (λ text. text)
      true
      "deployment/web"
      (under "day")
      calm
    ≡ (ok true, created)
unfolding create_idling_resource split create_of_values get_allowed_resources all_prefixes
    get_allowed_prefixes prefixes_from gvk_prefixes resource_prefixes keys_of contains_string
    create_built
creates = refl

kind_lacks : lacks "/" "deployment" ≡ true
unfolding lacks
kind_lacks = refl

name_lacks : lacks "/" "web" ≡ true
unfolding lacks
name_lacks = refl

singulars :
    (gv : GroupVersion) (kind : String) → no_capital (discovery.guess_singular gv kind) ≡ true
unfolding no_capital
singulars gv kind = elim (Bool-cases (kind == "Deployment")) [
  | inl same ↦ rw same refl
  | inr other ↦ rw other refl
]

short :
    (v : Memory) (lists : List ApiResourceList)
    → (discovery.server_groups_and_resources v).0 ≡ ok lists
    → lists_lower lists ≡ true
unfolding no_capital lists_lower short_lower all_lower
short v lists e = ground arith

abbrev later : World Memory
later = record { cluster = created; events = [] }

dispatch-create_idling_resource_example :
    (view created
      ≡ with_resource (under "day") (built true "deployment" "web" (under "day")) (view calm))
    × (dispatch client libraries (built true "deployment" "web" (under "day")) later
        ≡ (ok finished, later))
dispatch-create_idling_resource_example =
    dispatch-create_idling_resource client libraries discovery (λ text. text)
      idling_resources-IsLawful (λ v. refl) singulars short true true "deployment" "web"
      (under "day") calm created later kind_lacks name_lacks creates

abbrev connecting : Connecting (Unit {0}) (ObjectClient Memory IdlingResource) (Discovery Memory)
connecting = record {
  current_namespace = λ namespace. ok namespace;
  client_config = λ namespace. ok tt;
  add_to_scheme = ok tt;
  new_client = λ config. ok client.idling_resources;
  new_discovery_client = λ config. ok discovery;
}

abbrev setup : Setup (Unit {0}) Memory
setup = record {
  connecting = connecting;
  format = λ text. text;
  marshal = λ infos. ok infos.version;
  version_infos = record {
    revision = "";
    build_user = "";
    build_date = "";
    branch = "";
    version = "development";
  };
}

lawful :
    (namespace : String) (k : KidleClient (ObjectClient Memory IdlingResource) (Discovery Memory))
    → new_kidle_client connecting namespace ≡ ok k
    → IsLawful view idling_resource_slot idling_resource_object k.client
unfolding new_kidle_client
lawful namespace k e =
    let made : KidleClient (ObjectClient Memory IdlingResource) (Discovery Memory) = record {
      client = client.idling_resources;
      discovery_client = discovery;
      namespace = namespace;
    } in
    let same : made ≡ k = cc in rw (← same) idling_resources-IsLawful

abbrev night_options : NameOptions
night_options = record { name = "night"; namespace = "apps" }

abbrev console : Console Memory
console = record { cluster = calm; lines = [] }

idle_command-Ended_example :
    (let (end, t) = idle_command setup night_options console in
      Ended view setup true night_options console end t)
    × (let (end, t) = wakeup_command setup night_options console in
        Ended view setup false night_options console end t)
idle_command-Ended_example = idle_command-Ended view setup lawful night_options console

swapped : Perm {A = String} ("statefulset" ∷ "deploy" ∷ []) ("deploy" ∷ "statefulset" ∷ [])
swapped = Perm.swap "deploy" "statefulset" []

print_allowed_resources-Perm_example :
    print_allowed_resources ("statefulset" ∷ "deploy" ∷ [])
    ≡ print_allowed_resources ("deploy" ∷ "statefulset" ∷ [])
print_allowed_resources-Perm_example =
    print_allowed_resources-Perm ("statefulset" ∷ "deploy" ∷ []) ("deploy" ∷ "statefulset" ∷ [])
      swapped

-- The listing is in alphabetical order.
listing : print_allowed_resources ("statefulset" ∷ "deploy" ∷ []) ≡ ok "deploy, statefulset"
unfolding print_allowed_resources sort_strings insert_sorted at_most
listing = refl
