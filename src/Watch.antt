-- ===== src/Watch.antt =====
-- pkg/controllers/idlingresource_controller.go: which changes of watched objects start the
-- reconcile loop, `KidleChangedPredicate` and `objectForIdlingResourceMapper`.
pub mod Laws
use kidle.Prelude.{String, Bool, true, false, not, Option, none, some, List, [], ◌∷◌, ◌==◌}
use kidle.Exec.{Result, ok, err, panic}
use kidle.Strconv.{itoa, format_bool}
use kidle.Meta.{Key, ObjectMeta, get_annotation}
use kidle.Objects.{Workload, CronJob}
use kidle.Api.{metadata_idling_resource_reference, metadata_expected_state}

-- The dynamic type of an object in an event.
pub data Watched : Type 0 where
  deployment stateful_set : Workload → Watched
  cron_job : CronJob → Watched
  other_object : Watched

-- The tests that the method makes for each type: `state` is the printed state of the new object,
-- which is computed only if there is an expected state.
differs : Option String → Result String → Result Bool
differs none state = ok false
differs (some expected) (ok state) = ok (not (state == expected))
differs (some expected) (err e) = err e
differs (some expected) (panic m) = panic m

is_changed : ObjectMeta → ObjectMeta → Result String → Result Bool
unfolding differs
is_changed old new state = elim (get_annotation old metadata_idling_resource_reference) [
  | none ↦ ok false
  | some reference ↦ differs (get_annotation new metadata_expected_state) state
]

printed_replicas : Workload → Result String
printed_replicas o = elim o.replicas [
  | none ↦ panic "nil pointer dereference"
  | some r ↦ ok (itoa r)
]

printed_suspend : CronJob → Result String
printed_suspend o = elim o.suspend [
  | none ↦ panic "nil pointer dereference"
  | some b ↦ ok (format_bool b)
]

-- `KidleChangedPredicate.Update`
unfoldable pub update : Watched → Watched → Result Bool
unfolding is_changed printed_replicas printed_suspend
update (deployment old) (deployment new) = is_changed old.meta new.meta (printed_replicas new)
update (stateful_set old) (stateful_set new) = is_changed old.meta new.meta (printed_replicas new)
update (cron_job old) (cron_job new) = is_changed old.meta new.meta (printed_suspend new)
update _ _ = ok true

-- `objectForIdlingResourceMapper`
unfoldable pub object_for_idling_resource_mapper : ObjectMeta → List Key
object_for_idling_resource_mapper object =
    elim (get_annotation object metadata_idling_resource_reference) [
      | none ↦ []
      | some reference ↦ record { namespace = object.namespace; name = reference } ∷ []
    ]
