-- ===== src/Kidlectl/Resources.antt =====
-- cmd/kidlectl/pkg/kidleclient.go: the kinds of resources that `kidlectl create` accepts.
pub mod Laws
use Prim.Native.String.{◌++◌ as ◌<>◌}
use kidle.Prelude.{String, Bool, true, false, ◌&&◌, List, [], ◌∷◌, ◌++◌, ◌==◌, if◌then◌else◌}
use kidle.Exec.{Error, errorf, Result, ok, err, panic, Exec, lift, pure, raise, ◌>>=◌}
use kidle.Array.{contains_string}
use kidle.Strings.{sort_strings}
use kidle.Controller.State.{on_error}

-- `schema.GroupVersion`
pub record GroupVersion : Type 0 where
  pub group : String
  pub version : String

-- `metav1.GroupVersionKind`
pub record GroupVersionKind : Type 0 where
  pub group : String
  pub version : String
  pub kind : String

-- `metav1.APIResource` and `metav1.APIResourceList`, with the fields that the code reads.
pub record ApiResource : Type 0 where
  pub name : String
  pub kind : String
  pub short_names : List String

pub record ApiResourceList : Type 0 where
  pub group_version : String
  pub api_resources : List ApiResource

-- The discovery client, and two functions of apimachinery: `ParseGroupVersion`, and the singular
-- that `UnsafeGuessKindToResource` returns.
pub record Discovery (W : Type 0) : Type 0 where
  pub server_groups_and_resources : Exec W (List ApiResourceList)
  pub parse_group_version : String → Result GroupVersion
  pub guess_singular : GroupVersion → String → String

-- `AllowedGVK`
abbrev pub allowed_gvk : List GroupVersionKind
allowed_gvk =
    record { group = "apps"; version = "v1"; kind = "deployments" }
    ∷ record { group = "apps"; version = "v1"; kind = "statefulsets" }
    ∷ record { group = "batch"; version = "v1beta1"; kind = "cronjobs" }
    ∷ record { group = "batch"; version = "v1"; kind = "cronjobs" }
    ∷ []

-- `allowedPrefixesMap[a] = true` for each text of a list: the keys of the map, of which the code
-- reads only whether one is there, and all of them in sorted order.
unfoldable pub keys_of : List String → List String
keys_of [] = []
keys_of (a ∷ prefixes) =
    let rest = keys_of prefixes in if contains_string rest a then rest else a ∷ rest

-- The loop of `printAllowedResources`.
listed : List String → String
listed [] = ""
listed (v ∷ keys) = ", " <> v <> listed keys

first_and_rest : List String → Result String
unfolding listed
first_and_rest [] = panic "index out of range"
first_and_rest (s ∷ keys) = ok (s <> listed keys)

-- `printAllowedResources`, over the keys in the order in which Go visits them
unfoldable pub print_allowed_resources : List String → Result String
unfolding first_and_rest sort_strings
print_allowed_resources resources = first_and_rest (sort_strings resources)

module _ {W : Type 0} (discovery : Discovery W) where
  -- The loop over the resources of one list.
  unfoldable pub resource_prefixes :
      GroupVersionKind → GroupVersion → List ApiResource → List String → List String
  resource_prefixes gvk gv [] allowed_prefixes = allowed_prefixes
  resource_prefixes gvk gv (resource ∷ resources) allowed_prefixes =
      let singular = discovery.guess_singular gv resource.kind in
      let more = allowed_prefixes ++ resource.short_names ++ (singular ∷ resource.name ∷ []) in
      resource_prefixes gvk gv resources
        (if gvk.kind == resource.name then more else allowed_prefixes)

  -- One round of the loop over `AllowedGVK`.
  unfoldable pub gvk_prefixes :
      GroupVersionKind → ApiResourceList → Result GroupVersion → List String → Result (List String)
  unfolding resource_prefixes
  gvk_prefixes gvk resource_list (ok gv) allowed_prefixes = ok (
      if gvk.group == gv.group && gvk.version == gv.version
      then resource_prefixes gvk gv resource_list.api_resources allowed_prefixes
      else allowed_prefixes)
  gvk_prefixes gvk resource_list (err e) allowed_prefixes = err e
  gvk_prefixes gvk resource_list (panic m) allowed_prefixes = panic m

  unfoldable pub prefixes_from :
      List GroupVersionKind → ApiResourceList → Result (List String) → Result (List String)
  unfolding gvk_prefixes
  prefixes_from [] resource_list prefixes = prefixes
  prefixes_from (gvk ∷ gvks) resource_list (ok allowed_prefixes) =
      prefixes_from gvks resource_list (
        gvk_prefixes gvk resource_list (discovery.parse_group_version resource_list.group_version)
          allowed_prefixes)
  prefixes_from (gvk ∷ gvks) resource_list (err e) = err e
  prefixes_from (gvk ∷ gvks) resource_list (panic m) = panic m

  -- `getAllowedPrefixes`
  unfoldable pub get_allowed_prefixes : ApiResourceList → List String → Result (List String)
  unfolding prefixes_from
  get_allowed_prefixes resource_list allowed_prefixes =
      prefixes_from allowed_gvk resource_list (ok allowed_prefixes)

  -- The loop of `GetAllowedResources` over the lists.
  unfoldable pub all_prefixes : List ApiResourceList → Result (List String) → Result (List String)
  unfolding get_allowed_prefixes
  all_prefixes [] prefixes = prefixes
  all_prefixes (resource_list ∷ lists) (ok allowed_prefixes) =
      all_prefixes lists (get_allowed_prefixes resource_list allowed_prefixes)
  all_prefixes (resource_list ∷ lists) (err e) = err e
  all_prefixes (resource_list ∷ lists) (panic m) = panic m

  -- `GetAllowedResources`: the keys of the map, all of which have the value `true`
  unfoldable pub get_allowed_resources : Exec W (List String)
  unfolding all_prefixes
  get_allowed_resources = do
    lists ← discovery.server_groups_and_resources
    prefixes ←
        on_error (lift (all_prefixes lists (ok [])))
          (λ e. raise (errorf "unable to get allowed prefixes" e))
    pure (keys_of prefixes)
