-- ===== src/Controller/WithIdler/Spared.antt =====
-- What a run of `ReconcileWithIdler` spares in every outcome, also for an instance that is being
-- deleted.
use kidle.Prelude.{String, ◌≡◌, refl, ap, ◌∙◌, true, some, inl, inr, Bool-cases}
use kidle.Exec.{Result-cases}
use kidle.Array.{contains_string}
use kidle.Meta.{Key, MetaObject, get_annotation}
use kidle.Api.{
  IdlingResource, idling_resource_object, idling_resource_finalizer_name, is_being_deleted,
  metadata_idling_resource_reference,
}
use kidle.Cluster.{Cluster, Client, Slot, Stored, IsLawful, idling_resource_slot, put}
use kidle.Idler.{Idler}
use kidle.Idler.Contract.{IsIdler, nothing-Preserves}
use kidle.Idler.Change.{Local}
use kidle.Idler.Change.Updated.{key, IsCurrent, Updated, Updated-IsCurrent}
use kidle.Controller.State.{Run, Libraries, local_of}
use kidle.Controller.Finalizer.{remove_finalizer}
use kidle.Controller.Maintains.{Maintains, named-Maintains, still-Maintains, if-Maintains}
use kidle.Controller.Maintains.Calls.{update-Maintains}
use kidle.Controller.WithIdler.{drop_finalizer, disown, release, reconcile_with_idler}
use kidle.Controller.WithIdler.Deletion.{has_reference}
use kidle.Controller.WithIdler.Kept.{reconcile_with_idler-Kept}

module _ {W : Type 0} {view : W → Cluster} (client : Client W) (libraries : Libraries)
    (instances : IsLawful view idling_resource_slot idling_resource_object client.idling_resources)
    (I : Cluster → Type 0)
    (spares_instances : (m : Stored IdlingResource) (c : Cluster)
      → I c
      → I (idling_resource_slot.write m c)) where
  pub remove_finalizer-Maintains :
      (instance : IdlingResource)
      → Maintains (λ (w : W). I (view w)) (remove_finalizer client libraries instance)
  unfolding remove_finalizer
  remove_finalizer-Maintains instance =
      if-Maintains (contains_string instance.meta.finalizers idling_resource_finalizer_name) _ _
        (named-Maintains _ _ (update-Maintains instances I spares_instances _))
        (still-Maintains _ (λ w. refl))

module _ {W O : Type 0} {view : W → Cluster} {slot : Slot O} {object : MetaObject O}
    (client : Client W) (libraries : Libraries) {idler : Idler W O} {Asleep Awake : O → Type 0}
    (contract : IsIdler view slot object idler Asleep Awake)
    (instances : IsLawful view idling_resource_slot idling_resource_object client.idling_resources)
    (I : Cluster → Type 0)
    (spares_instances : (m : Stored IdlingResource) (c : Cluster)
      → I c
      → I (idling_resource_slot.write m c))
    (k : Key)
    (spares_own : (o : O) (c : Cluster)
      → I c
      → I (slot.write (put k (some o) (slot.read c)) c)) where
  -- The idler's copy is the stored object under the key, and `I` holds.
  abbrev Ready : Local W O → Type 0
  Ready s = IsCurrent view slot object s × (key view slot object s ≡ k) × I (view s.cluster)

  Ready-Updated : (s t : Local W O) → Updated view slot object s t → Ready s → Ready t
  Ready-Updated s t moved (current, named, i) = (
    Updated-IsCurrent view slot object moved,
    moved.named ∙ named,
    rw (moved.written, named) (spares_own t.object (view s.cluster) i),
  )

  drop_finalizer-spares :
      (instance : IdlingResource) (run : Run W O)
      → I (view run.world.cluster)
      → I (view (drop_finalizer client libraries idler instance run).1.world.cluster)
  unfolding drop_finalizer
  drop_finalizer-spares instance run i =
      let kept =
        (remove_finalizer-Maintains client libraries instances I spares_instances instance).holds
          run.world i in
      elim (Result-cases (remove_finalizer client libraries instance run.world).0) [
        | inl (u, e) ↦ rw e kept
        | inr (inl (m, e)) ↦ rw e kept
        | inr (inr (m, e)) ↦ rw e kept
      ]

  disown-spares :
      (instance : IdlingResource) (run : Run W O) (v : String)
      → get_annotation (object.meta run.object) metadata_idling_resource_reference ≡ some v
      → Ready (local_of run)
      → I (view (disown client libraries idler instance run).1.world.cluster)
  unfolding disown
  disown-spares instance run v referred (current, named, i) =
      let s = local_of run in
      let t = (idler.remove_annotations s).1 in
      let there =
        has_reference (object.meta run.object) metadata_idling_resource_reference v referred in
      elim (Result-cases (idler.remove_annotations s).0) [
        | inl (u, e) ↦
            let moved =
              (contract.remove_annotations-ok s t u current there (ap (λ r. (r, t)) e)).0 in
            let (_, _, j) = Ready-Updated s t moved (current, named, i) in
            rw e (drop_finalizer-spares instance _ j)
        | inr (inl (m, e)) ↦
            let same = contract.remove_annotations_failed s t _ refl (rw e refl) in rw (e, same) i
        | inr (inr (m, e)) ↦
            let same = contract.remove_annotations_failed s t _ refl (rw e refl) in rw (e, same) i
      ]

  release-spares :
      (instance : IdlingResource) (run : Run W O) (v : String)
      → get_annotation (object.meta run.object) metadata_idling_resource_reference ≡ some v
      → Ready (local_of run)
      → I (view (release client libraries idler instance run).1.world.cluster)
  unfolding release
  release-spares instance run v referred (current, named, i) =
      let s = local_of run in
      let t = (idler.wakeup s).1 in
      elim (Result-cases (idler.wakeup s).0) [
        | inl (p, e) ↦
            let (moved, _, kept) = contract.wakeup-ok s t p current (ap (λ r. (r, t)) e) in
            rw e (
              disown-spares instance _ v (kept ∙ referred)
                (Ready-Updated s t moved (current, named, i)))
        | inr (inl (m, e)) ↦
            let same = contract.wakeup_failed s t _ refl (rw e refl) in rw (e, same) i
        | inr (inr (m, e)) ↦
            let same = contract.wakeup_failed s t _ refl (rw e refl) in rw (e, same) i
      ]

  deleting-spares :
      (instance : IdlingResource) (run : Run W O)
      → is_being_deleted instance ≡ true
      → Ready (local_of run)
      → I (view (reconcile_with_idler client libraries idler instance run).1.world.cluster)
  unfolding reconcile_with_idler
  deleting-spares instance run leaving (current, named, i) =
      let s = local_of run in
      let t = (idler.set_reference instance.meta.name s).1 in
      elim (Result-cases (idler.set_reference instance.meta.name s).0) [
        | inl (u, e) ↦
            let (moved, annotated) =
              contract.set_reference-ok instance.meta.name s t u current (ap (λ r. (r, t)) e) in
            rw (e, leaving)
              (release-spares instance _ _ (annotated metadata_idling_resource_reference)
                (Ready-Updated s t moved (current, named, i)))
        | inr (inl (m, e)) ↦
            let same = contract.set_reference_failed instance.meta.name s t _ refl (rw e refl) in
            rw (e, same) i
        | inr (inr (m, e)) ↦
            let same = contract.set_reference_failed instance.meta.name s t _ refl (rw e refl) in
            rw (e, same) i
      ]

  -- A run in any outcome, and whether the instance is being deleted or not, maintains what depends
  -- neither on the idler's object nor on the IdlingResources.
  pub reconcile_with_idler-spares :
      (instance : IdlingResource) (run : Run W O)
      → Ready (local_of run)
      → I (view (reconcile_with_idler client libraries idler instance run).1.world.cluster)
  reconcile_with_idler-spares instance run (current, named, i) =
      elim (Bool-cases (is_being_deleted instance)) [
        | inl leaving ↦ deleting-spares instance run leaving (current, named, i)
        | inr lives ↦
            let (o, _, written) =
              reconcile_with_idler-Kept client libraries contract
                (nothing-Preserves view slot object idler) instance run lives current tt in
            rw (written, named) (spares_own o (view run.world.cluster) i)
      ]
