-- ===== src/Api.antt =====
-- pkg/api/v1beta1/idlingresource_types.go
pub mod Finalizers
pub mod Registration
use kidle.Prelude.{String, refl, Bool, true, false, Option, none, some, [], ◌∷◌, ◌++◌}
use kidle.Array.{contains_string, remove_string}
use kidle.Meta.{ObjectMeta, MetaObject}

abbrev pub idling_resource_finalizer_name : String
idling_resource_finalizer_name = "idlingresource.finalizers.kidle.kidle.dev"

abbrev pub metadata_idling_resource_reference : String
metadata_idling_resource_reference = "kidle.kidle.dev/idling-resource-reference"

abbrev pub metadata_previous_replicas : String
metadata_previous_replicas = "kidle.kidle.dev/previous-replicas"

abbrev pub metadata_expected_state : String
metadata_expected_state = "kidle.kidle.dev/expected-state"

pub record CrossVersionObjectReference : Type 0 where
  pub kind : String
  pub name : String
  pub api_version : String

pub record CronStrategy : Type 0 where
  pub schedule : String

-- A pointer field is an `Option`. `InactiveStrategy` and `OnCallStrategy` have no fields.
pub record IdlingStrategy : Type 0 where
  pub cron_strategy : Option CronStrategy
  pub inactive_strategy : Option (Unit {0})

pub record WakeupStrategy : Type 0 where
  pub cron_strategy : Option CronStrategy
  pub on_call_strategy : Option (Unit {0})

pub record IdlingResourceSpec : Type 0 where
  pub idling_resource_ref : CrossVersionObjectReference
  pub idle : Bool
  pub idling_strategy : Option IdlingStrategy
  pub wakeup_strategy : Option WakeupStrategy

-- The status has no fields.
pub record IdlingResource : Type 0 where
  pub meta : ObjectMeta
  pub spec : IdlingResourceSpec

abbrev pub idling_resource_object : MetaObject IdlingResource
idling_resource_object = record {
  meta = λ o. o.meta;
  with_meta = λ o m. record o { meta = m };
  meta-with_meta = λ o m. refl;
}

-- `IsBeingDeleted`
unfoldable pub is_being_deleted : IdlingResource → Bool
is_being_deleted ss = elim ss.meta.deletion_timestamp [ none ↦ false | some time ↦ true ]

-- `HasFinalizer`
unfoldable pub has_finalizer : IdlingResource → String → Bool
has_finalizer ss finalizer_name = contains_string ss.meta.finalizers finalizer_name

-- `AddFinalizer`
unfoldable pub add_finalizer : IdlingResource → String → IdlingResource
add_finalizer ss finalizer_name = record ss {
  meta = record (ss.meta) { finalizers = ss.meta.finalizers ++ (finalizer_name ∷ []) };
}

-- `RemoveFinalizer`
unfoldable pub remove_finalizer : IdlingResource → String → IdlingResource
remove_finalizer ss finalizer_name = record ss {
  meta = record (ss.meta) { finalizers = remove_string ss.meta.finalizers finalizer_name };
}
