-- ===== src/Meta/Laws.antt =====
-- The annotations of an object after each change (pkg/utils/k8s/annotations.go).
use kidle.Prelude.{String, ◌≡◌, refl, true, false, none, some, [], arith, ◌==◌, if◌then◌else◌}
use kidle.Meta.Assoc.{lookup-insert, lookup-erase}
use kidle.Meta.{
  ObjectMeta, add_annotation, remove_annotation, get_annotation, has_annotation, StringMap,
  map_lookup, map_assign, map_delete,
}

map_lookup-map_assign :
    (m : StringMap) (a b v : String)
    → map_lookup b (map_assign a v m) ≡ (if a == b then some v else map_lookup b m)
unfolding map_lookup map_assign
map_lookup-map_assign none a b v = lookup-insert a b v []
map_lookup-map_assign (some m) a b v = lookup-insert a b v m

map_lookup-map_delete :
    (m : StringMap) (a b : String)
    → map_lookup b (map_delete a m) ≡ (if a == b then none else map_lookup b m)
unfolding map_lookup map_delete
map_lookup-map_delete none a b = ground arith
map_lookup-map_delete (some m) a b = lookup-erase a b m

-- `GetAnnotation` after `AddAnnotation`: the added annotation has the given value, and every other
-- one is as before. A nil map is a map without keys.
pub get_annotation-add_annotation :
    (obj : ObjectMeta) (a b v : String)
    → get_annotation (add_annotation obj a v) b ≡ (if a == b then some v else get_annotation obj b)
unfolding get_annotation add_annotation
get_annotation-add_annotation obj a b v = map_lookup-map_assign obj.annotations a b v

-- `GetAnnotation` after `RemoveAnnotation`: the removed annotation is gone, and every other one is
-- as before.
pub get_annotation-remove_annotation :
    (obj : ObjectMeta) (a b : String)
    → get_annotation (remove_annotation obj a) b ≡ (if a == b then none else get_annotation obj b)
unfolding get_annotation remove_annotation
get_annotation-remove_annotation obj a b = map_lookup-map_delete obj.annotations a b

pub has_annotation-get_annotation :
    (obj : ObjectMeta) (a : String)
    → has_annotation obj a ≡ elim (get_annotation obj a) [ none ↦ false | some v ↦ true ]
unfolding has_annotation get_annotation
has_annotation-get_annotation obj a = refl
