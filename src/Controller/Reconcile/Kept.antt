-- ===== src/Controller/Reconcile/Kept.antt =====
-- One case of the switch of `Reconcile`, from the read of the workload, in every outcome.
use kidle.Prelude.{◌≡◌, refl, false, some, ◌⊎◌, inl, inr, Bool-cases}
use kidle.Exec.{Error, is_not_found, Result, ok, err, panic}
use kidle.Meta.{Key, key_of, MetaObject}
use kidle.Api.{IdlingResource, is_being_deleted}
use kidle.Cluster.{Cluster, Slot, ObjectClient, Client, IsLawful, put}
use kidle.Idler.{Idler}
use kidle.Idler.Contract.{IsIdler, Preserves}
use kidle.Idler.Change.Updated.{IsCurrent}
use kidle.Controller.State.{World, Run, Libraries, local_of}
use kidle.Controller.WithIdler.Kept.{reconcile_with_idler-Kept}
use kidle.Controller.Reconcile.{
  reconcile_resource_not_found, workload_key, answered, reconcile_workload,
}

-- Either nothing stored has changed, or at most the object under the key, which is stored still
-- and has `P`.
abbrev pub Touched : {O : Type 0} → Slot O → (O → Type 0) → Key → Cluster → Cluster → Type 0
Touched {O} slot P key before after =
    (after ≡ before)
    ⊎ ((o : O) × P o × (after ≡ slot.write (put key (some o) (slot.read before)) before))

module _ {W O : Type 0} {view : W → Cluster} {slot : Slot O} {object : MetaObject O}
    (client : Client W) (libraries : Libraries) {c : ObjectClient W O}
    (law : IsLawful view slot object c) {idler : Idler W O} {Asleep Awake : O → Type 0}
    (contract : IsIdler view slot object idler Asleep Awake) {P : O → Type 0}
    (keeps : Preserves view slot object idler P) where
  not_found_still :
      (instance : IdlingResource) (e : Error) (w : World W)
      → is_being_deleted instance ≡ false
      → (reconcile_resource_not_found client libraries instance e w).1.cluster ≡ w.cluster
  unfolding reconcile_resource_not_found
  not_found_still instance e w lives = elim (Bool-cases (is_not_found e)) [
    | inl missing ↦ rw (missing, lives) refl
    | inr other ↦ rw other refl
  ]

  reconcile_workload-Kept_at :
      (instance : IdlingResource) (w : World W) (got : Result O)
      → (c.get (workload_key instance) w.cluster).0 ≡ got
      → is_being_deleted instance ≡ false
      → ((o : O) → slot.read (view w.cluster) (workload_key instance) ≡ some o → P o)
      → Touched slot P
          (workload_key instance)
          (view w.cluster)
          (view (reconcile_workload client libraries c idler instance w).1.cluster)
  unfolding reconcile_workload answered
  reconcile_workload-Kept_at instance w (ok o) g lives p =
      let key : Key = workload_key instance in
      let run : Run W O = record {
        object = o;
        world = record w { cluster = (c.get key w.cluster).1 };
      } in
      let there : slot.read (view w.cluster) key ≡ some o = law.get-ok key w.cluster o g in
      let named : key_of (object.meta o) ≡ key = law.get_key key w.cluster o there in
      let seen : view (c.get key w.cluster).1 ≡ view w.cluster = law.get-view key w.cluster in
      let current : IsCurrent view slot object (local_of run) = rw (named, seen) there in
      let (n, holds, written) =
        reconcile_with_idler-Kept client libraries contract keeps instance run lives current
          (p o there) in
      rw g (inr (n, holds, rw (named, seen) at written))
  reconcile_workload-Kept_at instance w (err e) g lives p =
      rw g (inl (rw (not_found_still instance e _ lives) (law.get-view _ w.cluster)))
  reconcile_workload-Kept_at instance w (panic m) g lives p = rw g (inl (law.get-view _ w.cluster))

  -- A run for an instance that is not being deleted, from the read of its workload and whether it
  -- succeeds, fails or panics, changes nothing but the workload of the instance, if that is stored.
  -- The workload is stored still, and has what the idler's methods preserve if it had it before.
  pub reconcile_workload-Kept :
      (instance : IdlingResource) (w : World W)
      → is_being_deleted instance ≡ false
      → ((o : O) → slot.read (view w.cluster) (workload_key instance) ≡ some o → P o)
      → Touched slot P
          (workload_key instance)
          (view w.cluster)
          (view (reconcile_workload client libraries c idler instance w).1.cluster)
  reconcile_workload-Kept instance w = reconcile_workload-Kept_at instance w _ refl
