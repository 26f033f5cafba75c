-- ===== src/Meta.antt =====
-- The metadata of Kubernetes objects, and pkg/utils/k8s/annotations.go. `ObjectMeta` has the
-- fields of `metav1.ObjectMeta` that the code reads or writes.
mod Assoc
pub mod Laws
use kidle.Prelude.{String, ◌≡◌, Bool, true, false, ◌&&◌, ℕ, Option, none, some, List, [], ◌∷◌, ◌==◌}
use Assoc.{lookup, insert, erase}

-- `types.NamespacedName`, which is `client.ObjectKey` too.
pub record Key : Type 0 where
  pub namespace : String
  pub name : String

abbrev pub same_key : Key → Key → Bool
same_key k j = k.namespace == j.namespace && k.name == j.name

-- A `map[string]string`: `none` is the nil map.
abbrev pub StringMap : Type 0
StringMap = Option (List (String × String))

-- `metav1.OwnerReference`, as far as `SetControllerReference` fills it for this code.
pub record OwnerReference : Type 0 where
  pub kind : String
  pub name : String
  pub controller : Bool

pub record ObjectMeta : Type 0 where
  pub name : String
  pub namespace : String
  pub annotations : StringMap
  pub finalizers : List String
  -- `none` is a nil or zero time
  pub deletion_timestamp : Option ℕ
  pub owner_references : List OwnerReference

abbrev pub key_of : ObjectMeta → Key
key_of m = record { namespace = m.namespace; name = m.name }

-- `metav1.Object`, the interface by which an object's metadata is read and changed in place.
pub record MetaObject (O : Type 0) : Type 0 where
  pub meta : O → ObjectMeta
  pub with_meta : O → ObjectMeta → O
  pub meta-with_meta : (o : O) (m : ObjectMeta) → meta (with_meta o m) ≡ m

-- Go's `m[key]` with its second result; a nil map has no key.
map_lookup : String → StringMap → Option String
unfolding lookup
map_lookup a none = none
map_lookup a (some m) = lookup a m

-- `m[key] = value` on the map that `make` gave for a nil one
map_assign : String → String → StringMap → StringMap
unfolding insert
map_assign a v none = some (insert a v [])
map_assign a v (some m) = some (insert a v m)

-- `delete(m, key)`, which does nothing to a nil map
map_delete : String → StringMap → StringMap
unfolding erase
map_delete a none = none
map_delete a (some m) = some (erase a m)

-- `AddAnnotation`
unfoldable pub add_annotation : ObjectMeta → String → String → ObjectMeta
unfolding map_assign
add_annotation obj annotation value = record obj {
  annotations = map_assign annotation value obj.annotations;
}

-- `RemoveAnnotation`
unfoldable pub remove_annotation : ObjectMeta → String → ObjectMeta
unfolding map_delete
remove_annotation obj annotation = record obj {
  annotations = map_delete annotation obj.annotations;
}

-- `GetAnnotation`: `none` is the result `"", false`
unfoldable pub get_annotation : ObjectMeta → String → Option String
unfolding map_lookup
get_annotation obj annotation = map_lookup annotation obj.annotations

-- `HasAnnotation`
unfoldable pub has_annotation : ObjectMeta → String → Bool
unfolding map_lookup
has_annotation obj annotation = elim (map_lookup annotation obj.annotations) [
  | none ↦ false
  | some value ↦ true
]
