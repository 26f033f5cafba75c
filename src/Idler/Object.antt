-- ===== src/Idler/Object.antt =====
-- pkg/controllers/idler/idler.go: the methods of `ObjectIdler`, which every idler embeds.
pub mod Laws
pub mod Live
use kidle.Prelude.{String, Bool, ◌||◌, if◌then◌else◌}
use kidle.Exec.{Result, ok, Exec}
use kidle.Meta.{ObjectMeta, MetaObject, add_annotation, remove_annotation, has_annotation}
use kidle.Api.{
  metadata_idling_resource_reference, metadata_previous_replicas, metadata_expected_state,
}
use kidle.Cluster.{ObjectClient}
use kidle.Cluster.Retry.{RetryOnConflict}
use kidle.Idler.Change.{Local, change}

unfoldable pub without_annotations : ObjectMeta → ObjectMeta
without_annotations m =
    remove_annotation
      (remove_annotation (remove_annotation m metadata_idling_resource_reference)
        metadata_previous_replicas)
      metadata_expected_state

module _ {O : Type 0} (object : MetaObject O) where
  -- what the closure of `SetReference` does to the object
  unfoldable pub referenced : String → O → Result O
  referenced instance_name o = ok (
      object.with_meta o
        (add_annotation (object.meta o) metadata_idling_resource_reference instance_name))

  -- what the closure of `RemoveAnnotations` does to the object
  unfoldable pub cleaned : O → Result O
  cleaned o = ok (object.with_meta o (without_annotations (object.meta o)))

module _ {W O : Type 0} (object : MetaObject O) (c : ObjectClient W O)
    (retry : RetryOnConflict) where
  -- `SetReference`
  unfoldable pub set_reference : String → Exec (Local W O) (Unit {0})
  set_reference instance_name s =
      if has_annotation (object.meta s.object) metadata_idling_resource_reference
      then (ok tt, s)
      else change object c retry (referenced object instance_name) s

  -- `RemoveAnnotations`
  unfoldable pub remove_annotations : Exec (Local W O) (Unit {0})
  remove_annotations s =
      if has_annotation (object.meta s.object) metadata_idling_resource_reference
        || has_annotation (object.meta s.object) metadata_previous_replicas
      then change object c retry (cleaned object) s
      else (ok tt, s)
