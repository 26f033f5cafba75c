-- ===== src/Controller/Reconcile/Laws.antt =====
-- Runs of the loop from the read of the workload.
use kidle.Prelude.{◌≡◌, ap, ◌∙◌, false, none, some, arith, ◌⊎◌, inl, inr}
use kidle.Exec.{is_not_found-cases, Result, ok, err, panic}
use kidle.Meta.{Key, key_of, MetaObject}
use kidle.Api.{IdlingResource, is_being_deleted}
use kidle.Cluster.{Cluster, Slot, ObjectClient, Client, IsLawful}
use kidle.Idler.{Idler}
use kidle.Idler.Contract.{IsIdler}
use kidle.Idler.Change.Updated.{IsCurrent}
use kidle.Controller.State.{Outcome, World, Run, Libraries, local_of}
use kidle.Controller.WithIdler.{reconcile_with_idler}
use kidle.Controller.WithIdler.Outcomes.{Followed, reconcile_with_idler-Followed}
use kidle.Controller.Reconcile.{
  requeued, reconcile_resource_not_found, workload_key, reconcile_workload,
}

module _ {W O : Type 0} {view : W → Cluster} {slot : Slot O} {object : MetaObject O}
    (client : Client W) (libraries : Libraries) {c : ObjectClient W O}
    (law : IsLawful view slot object c) {idler : Idler W O} {Asleep Awake : O → Type 0}
    (contract : IsIdler view slot object idler Asleep Awake) where
  -- If the workload is not stored, the run asks for another one in two seconds and has changed
  -- nothing; else it is a run of `ReconcileWithIdler` on the stored workload.
  pub reconcile_workload-cases :
      (instance : IdlingResource) (w x : World W) (out : Outcome) (got : Result O)
      → (c.get (workload_key instance) w.cluster).0 ≡ got
      → is_being_deleted instance ≡ false
      → reconcile_workload client libraries c idler instance w ≡ (ok out, x)
      → ((slot.read (view w.cluster) (workload_key instance) ≡ none)
          × (out ≡ requeued)
          × (view x.cluster ≡ view w.cluster))
        ⊎ ((run after : Run W O) × (view run.world.cluster ≡ view w.cluster)
            × (key_of (object.meta run.object) ≡ workload_key instance)
            × (after.world ≡ x)
            × Followed client libraries contract instance run after)
  unfolding reconcile_workload reconcile_resource_not_found
  reconcile_workload-cases instance w x out (ok o) g lives e =
      let key : Key = workload_key instance in
      let run : Run W O = record {
        object = o;
        world = record w { cluster = (c.get key w.cluster).1 };
      } in
      let after : Run W O = (reconcile_with_idler client libraries idler instance run).1 in
      let done : (reconcile_with_idler client libraries idler instance run).0 ≡ ok out =
        ground arith in
      let there : slot.read (view w.cluster) key ≡ some o = law.get-ok key w.cluster o g in
      let named : key_of (object.meta o) ≡ key = law.get_key key w.cluster o there in
      let seen : view (c.get key w.cluster).1 ≡ view w.cluster = law.get-view key w.cluster in
      let current : IsCurrent view slot object (local_of run) = rw (named, seen) there in
      let runs : reconcile_with_idler client libraries idler instance run ≡ (ok out, after) =
        ap (λ (r : Result Outcome). (r, after)) done in
      inr (
        run,
        after,
        seen,
        named,
        ground arith,
        reconcile_with_idler-Followed client libraries contract instance run after out lives current
            runs,
      )
  reconcile_workload-cases instance w x out (err m) g lives e = elim (is_not_found-cases m) [
    | inl other ↦ ground arith
    | inr (message, missing) ↦ inl (
      law.get-not_found (workload_key instance) w.cluster message (g ∙ ap err missing),
      ground arith,
      ground (arith, law.get-view (workload_key instance) w.cluster),
    )
  ]
  reconcile_workload-cases instance w x out (panic m) g lives e = ground arith
