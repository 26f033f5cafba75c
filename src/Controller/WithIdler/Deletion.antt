-- ===== src/Controller/WithIdler/Deletion.antt =====
-- What a run of `ReconcileWithIdler` has done that succeeds for an instance that is being deleted.
use kidle.Prelude.{String, ◌≡◌, refl, ◌∙◌, true, none, some}
use kidle.Exec.{ok}
use kidle.Meta.{ObjectMeta, MetaObject, get_annotation, has_annotation}
use kidle.Meta.Laws.{has_annotation-get_annotation}
use kidle.Api.{
  IdlingResource, idling_resource_object, idling_resource_finalizer_name, has_finalizer,
  is_being_deleted, metadata_idling_resource_reference,
}
use kidle.Cluster.{Cluster, Client, Slot, idling_resource_slot, IsLawful}
use kidle.Idler.{Idler}
use kidle.Idler.Contract.{IsIdler}
use kidle.Idler.Change.Updated.{IsCurrent, Updated, Updated-trans, Updated-IsCurrent}
use kidle.Idler.Object.{cleaned}
use kidle.Idler.Object.Laws.{is_kidle_annotation}
use kidle.Controller.State.{Outcome, Run, Libraries, IsDocumented, local_of}
use kidle.Controller.FinalizerLaws.{Removed, remove_finalizer-ok}
use kidle.Controller.WithIdler.{release, disown, reconcile_with_idler}
use kidle.Controller.WithIdler.Laws.{
  referenced, referenced_first, release-ok_at, disown-ok, drop_finalizer-ok,
}
use kidle.Controller.WithIdler.Outcomes.{set_first}

pub has_reference :
    (m : ObjectMeta) (a v : String) → get_annotation m a ≡ some v → has_annotation m a ≡ true
has_reference m a v e = has_annotation-get_annotation m a ∙ rw e refl

-- Two changes: `between` is the run after the workload is woken up and stored with none of
-- Kidle's annotations, and then the finalizer is removed from the instance.
pub record Released {W O : Type 0} (view : W → Cluster) (slot : Slot O) (object : MetaObject O)
    (Awake : O → Type 0) (instance : IdlingResource) (run after : Run W O) : Type 0 where
  pub between : Run W O
  pub moved : Updated view slot object (local_of run) (local_of between)
  pub woken : O
  pub awake : Awake woken
  pub clean : cleaned object woken ≡ ok between.object
  pub unannotated :
      (a : String)
      → is_kidle_annotation a ≡ true
      → get_annotation (object.meta between.object) a ≡ none
  pub removed : Removed view instance between.world after.world

module _ {W O : Type 0} {view : W → Cluster} {slot : Slot O} {object : MetaObject O}
    (client : Client W) (libraries : Libraries) {idler : Idler W O} {Asleep Awake : O → Type 0}
    (contract : IsIdler view slot object idler Asleep Awake)
    (law : IsLawful view idling_resource_slot idling_resource_object client.idling_resources)
    (documented : IsDocumented libraries) where
  disown-Removed :
      (instance : IdlingResource) (run after : Run W O) (out : Outcome) (v : String)
      → has_finalizer instance idling_resource_finalizer_name ≡ true
      → IsCurrent view slot object (local_of run)
      → get_annotation (object.meta run.object) metadata_idling_resource_reference ≡ some v
      → disown client libraries idler instance run ≡ (ok out, after)
      → (between : Run W O) × Updated view slot object (local_of run) (local_of between)
        × (cleaned object run.object ≡ ok between.object)
        × ((a : String)
            → is_kidle_annotation a ≡ true
            → get_annotation (object.meta between.object) a ≡ none)
        × Removed view instance between.world after.world
  disown-Removed instance run after out v has current referenced e =
      let (m, cleans, drops) = disown-ok client libraries idler instance run after out e in
      let there =
        has_reference (object.meta run.object) metadata_idling_resource_reference v referenced in
      let (moved, clean, annotated) =
        contract.remove_annotations-ok (local_of run) (local_of m) tt current there cleans in
      let (x, frees, same, _) =
        drop_finalizer-ok client libraries idler instance m after out drops in
      let freed =
        remove_finalizer-ok client libraries law documented instance m.world x tt has frees in
      (
        m,
        moved,
        clean,
        λ a kidles. annotated a ∙ rw kidles refl,
        record {
          changed = freed.changed;
          freed = freed.freed;
          written = rw (← same) freed.written;
        },
      )

  release-Released :
      (instance : IdlingResource) (run after : Run W O) (out : Outcome) (v : String)
      → has_finalizer instance idling_resource_finalizer_name ≡ true
      → IsCurrent view slot object (local_of run)
      → get_annotation (object.meta run.object) metadata_idling_resource_reference ≡ some v
      → release client libraries idler instance run ≡ (ok out, after)
      → Released view slot object Awake instance run after
  release-Released instance run after out v has current referenced e =
      let (p, m, wakes, disowns) =
        release-ok_at client libraries idler instance run after out (idler.wakeup (local_of run)).0
          refl e in
      let (first, awake, kept) = contract.wakeup-ok (local_of run) (local_of m) p current wakes in
      let (n, second, clean, bare, freed) =
        disown-Removed instance m after out v has (Updated-IsCurrent view slot object first)
          (kept ∙ referenced) disowns in
      record {
        between = n;
        moved = Updated-trans view slot object first second;
        woken = m.object;
        awake = awake;
        clean = clean;
        unannotated = bare;
        removed = freed;
      }

  -- A run that succeeds for an instance that is being deleted and has the finalizer has woken up
  -- the workload, stored it without Kidle's annotations and then removed the finalizer. It has
  -- changed no other object.
  pub reconcile_with_idler-Released :
      (instance : IdlingResource) (run after : Run W O) (out : Outcome)
      → is_being_deleted instance ≡ true
      → has_finalizer instance idling_resource_finalizer_name ≡ true
      → IsCurrent view slot object (local_of run)
      → reconcile_with_idler client libraries idler instance run ≡ (ok out, after)
      → Released view slot object Awake instance run after
  reconcile_with_idler-Released instance run after out deleted has current e =
      let (first, set) = set_first client libraries contract instance run after out current e in
      let start = referenced client libraries idler instance run in
      let rest : release client libraries idler instance start ≡ (ok out, after) =
        rw deleted at ((referenced_first client libraries idler instance run after out e).1) in
      let r =
        release-Released instance start after out _ has (Updated-IsCurrent view slot object first)
          set rest in
      record {
        between = r.between;
        moved = Updated-trans view slot object first r.moved;
        woken = r.woken;
        awake = r.awake;
        clean = r.clean;
        unannotated = r.unannotated;
        removed = r.removed;
      }
