-- ===== src/Controller/Reconcile/Spared.antt =====
-- One case of the switch of `Reconcile`, for any instance and in every outcome: what it spares.
use kidle.Prelude.{◌≡◌, refl, some}
use kidle.Exec.{Error, is_not_found, Result, ok, err, panic}
use kidle.Meta.{Key, key_of, MetaObject}
use kidle.Api.{IdlingResource, idling_resource_object, is_being_deleted}
use kidle.Cluster.{Cluster, Client, ObjectClient, Slot, Stored, IsLawful, idling_resource_slot, put}
use kidle.Idler.{Idler}
use kidle.Idler.Contract.{IsIdler}
use kidle.Idler.Change.Updated.{IsCurrent}
use kidle.Controller.State.{World, Run, Libraries, local_of}
use kidle.Controller.Maintains.{
  Maintains, then-Maintains, on_error-Maintains, still-Maintains, if-Maintains,
}
use kidle.Controller.WithIdler.Spared.{remove_finalizer-Maintains, reconcile_with_idler-spares}
use kidle.Controller.Reconcile.{
  reconcile_resource_not_found, workload_key, answered, reconcile_workload,
}

module _ {W O : Type 0} {view : W → Cluster} {slot : Slot O} {object : MetaObject O}
    (client : Client W) (libraries : Libraries) {c : ObjectClient W O}
    (law : IsLawful view slot object c) {idler : Idler W O} {Asleep Awake : O → Type 0}
    (contract : IsIdler view slot object idler Asleep Awake)
    (instances : IsLawful view idling_resource_slot idling_resource_object client.idling_resources)
    (I : Cluster → Type 0)
    (spares_instances : (m : Stored IdlingResource) (c : Cluster)
      → I c
      → I (idling_resource_slot.write m c))
    (instance : IdlingResource)
    (spares_own : (o : O) (c : Cluster)
      → I c
      → I (slot.write (put (workload_key instance) (some o) (slot.read c)) c)) where
  not_found-Maintains :
      (e : Error)
      → Maintains (λ (w : W). I (view w)) (reconcile_resource_not_found client libraries instance e)
  unfolding reconcile_resource_not_found
  not_found-Maintains e =
      if-Maintains (is_not_found e) _ _
        (if-Maintains (is_being_deleted instance) _ _
          (then-Maintains _ _
            (on_error-Maintains _ _
              (remove_finalizer-Maintains client libraries instances I spares_instances instance)
              (λ x. still-Maintains _ (λ w. refl)))
            (still-Maintains _ (λ w. refl)))
          (still-Maintains _ (λ w. refl)))
        (still-Maintains _ (λ w. refl))

  spares_at :
      (w : World W) (got : Result O)
      → (c.get (workload_key instance) w.cluster).0 ≡ got
      → I (view w.cluster)
      → I (view (reconcile_workload client libraries c idler instance w).1.cluster)
  unfolding reconcile_workload answered
  spares_at w (ok o) g i =
      let key : Key = workload_key instance in
      let run : Run W O = record {
        object = o;
        world = record w { cluster = (c.get key w.cluster).1 };
      } in
      let there : slot.read (view w.cluster) key ≡ some o = law.get-ok key w.cluster o g in
      let named : key_of (object.meta o) ≡ key = law.get_key key w.cluster o there in
      let seen : view (c.get key w.cluster).1 ≡ view w.cluster = law.get-view key w.cluster in
      let current : IsCurrent view slot object (local_of run) = rw (named, seen) there in
      rw g (
        reconcile_with_idler-spares client libraries contract instances I spares_instances key
          spares_own instance run (current, named, rw seen i))
  spares_at w (err e) g i =
      rw g ((not_found-Maintains e).holds _ (rw (law.get-view (workload_key instance) w.cluster) i))
  spares_at w (panic m) g i = rw g (rw (law.get-view (workload_key instance) w.cluster) i)

  -- A run from the read of the workload, in any outcome and whether the instance is being deleted
  -- or not, maintains what depends neither on the workload nor on the IdlingResources.
  pub reconcile_workload-Maintains :
      Maintains (λ (w : W). I (view w)) (reconcile_workload client libraries c idler instance)
  reconcile_workload-Maintains = record { holds = λ w i. spares_at w _ refl i }
