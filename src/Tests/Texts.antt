-- ===== src/Tests/Texts.antt =====
-- Numbers, pointers and the event filter at concrete values.
use kidle.Prelude.{Bool, ◌≡◌, ◌≢◌, ◌↔◌, refl, arith, true, some, [], ◌∷◌, ◌^◌, ◌-◌}
use kidle.Prelude.Int.{ℤ, pos, IsInt32, to_int32, to_int32-IsInt32}
use kidle.Exec.{ok}
use kidle.Strconv.{itoa}
use kidle.Meta.{get_annotation}
use kidle.Objects.{Workload}
use kidle.Api.{IdlingResource, metadata_idling_resource_reference, metadata_expected_state}
use kidle.Pointer.{Heap, int32, int64, bool}
use kidle.Pointer.Laws.{IsFresh, pointers-IsFresh}
use kidle.Watch.{deployment, update}
use kidle.Watch.Laws.{update_iff}
use kidle.Tests.Data.{named, resource}

abbrev night : IdlingResource
night = resource "Deployment" "web" true

abbrev watched : Workload
watched = record {
  meta = record (named "web") {
    annotations =
        some ((metadata_idling_resource_reference, "night") ∷ (metadata_expected_state, "0") ∷ []);
  };
  replicas = some (pos 2);
}

watched_reference : get_annotation watched.meta metadata_idling_resource_reference ≡ some "night"
unfolding get_annotation
watched_reference = refl

watched_expected : get_annotation watched.meta metadata_expected_state ≡ some (itoa (pos 0))
unfolding get_annotation itoa
watched_expected = refl

update_iff_example : (update (deployment watched) (deployment watched) ≡ ok true) ↔ (pos 2 ≢ pos 0)
update_iff_example =
    update_iff watched watched "night" (pos 2) (pos 0) watched_reference watched_expected refl
      (omega arith) (omega arith)

to_int32-IsInt32_example : IsInt32 (to_int32 (pos (2 ^ 32 - 1)))
to_int32-IsInt32_example = to_int32-IsInt32 (pos (2 ^ 32 - 1))

abbrev numbers : Heap ℤ
numbers = pos 3 ∷ pos 0 ∷ []

abbrev flags : Heap Bool
flags = true ∷ []

pointers-IsFresh_example :
    IsFresh int32 numbers (pos 0) (some 1)
    × IsFresh int64 numbers (pos 0) (some 1)
    × IsFresh bool flags true (some 0)
pointers-IsFresh_example =
    pointers-IsFresh numbers flags (pos 0) true (some 1) (some 0) (omega arith) (omega arith)
