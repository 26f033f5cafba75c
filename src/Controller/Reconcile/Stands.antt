-- ===== src/Controller/Reconcile/Stands.antt =====
-- What `Reconcile` keeps of a Deployment's or a StatefulSet's own number of replicas, in every
-- outcome and whatever the request is for.
use kidle.Prelude.{
  ◌≢◌, ◌⊎◌, false, ◌≡◌, refl, Bool, true, false, some, inl, inr, Bool-cases, if◌then◌else◌,
}
use kidle.Prelude.Int.{ℤ}
use kidle.Meta.{Key, same_key}
use kidle.Objects.{Workload}
use kidle.Cluster.{put, Cluster, Slot, Stored, deployment_slot, stateful_set_slot}
use kidle.Idler.Change.Updated.{put_self, same_key-eq}
use kidle.Idler.Replicas.Keeps.{Keeps}
use kidle.Api.{IdlingResource, is_being_deleted}
use kidle.Controller.Reconcile.{workload_key}
use kidle.Controller.Reconcile.Kept.{Touched}

abbrev pub own_slot : Bool → Slot Workload
own_slot stateful = if stateful then stateful_set_slot else deployment_slot

-- The workload is stored, with `n` replicas or with none and `n` saved.
abbrev pub Stands : Bool → Key → ℤ → Cluster → Type 0
Stands stateful key n c = (o : Workload) × ((own_slot stateful).read c key ≡ some o) × Keeps n o

pub Stands-same :
    (stateful : Bool) (key : Key) (n : ℤ) (a b : Cluster)
    → b.deployments ≡ a.deployments
    → b.stateful_sets ≡ a.stateful_sets
    → Stands stateful key n a
    → Stands stateful key n b
Stands-same true key n a b d s (o, there, keeps) = (o, rw s there, keeps)
Stands-same false key n a b d s (o, there, keeps) = (o, rw d there, keeps)

-- A run for a workload of the same kind, which has the number if it is this one.
Touched-own :
    (same : Bool) (slot : Slot Workload) (key other : Key) (n : ℤ) (a b : Cluster)
    → Touched slot (λ o. same ≡ same → other ≡ key → Keeps n o) other a b
    → (o : Workload) × (slot.read a key ≡ some o) × Keeps n o
    → (o : Workload) × (slot.read b key ≡ some o) × Keeps n o
Touched-own same slot key other n a b (inl still) stands = rw still stands
Touched-own same slot key other n a b (inr (p, holds, written)) (o, there, keeps) =
    elim (Bool-cases (same_key other key)) [
      | inl this ↦
          let e : other ≡ key = same_key-eq other key this in
          (p, rw (written, slot.read-write, e) (put_self key (some p) (slot.read a)), holds refl e)
      | inr apart ↦ (o, rw (written, slot.read-write, apart) there, keeps)
    ]

-- A run for an object of another type, on which what is claimed does not depend.
Touched-spares :
    {O : Type 0} (slot : Slot O) (P : O → Type 0) (other : Key) (I : Cluster → Type 0)
    (a b : Cluster)
    → ((m : Stored O) → I a → I (slot.write m a))
    → Touched slot P other a b
    → I a
    → I b
Touched-spares slot P other I a b spares (inl same) h = rw same h
Touched-spares slot P other I a b spares (inr (p, holds, written)) h = rw written (spares _ h)

pub Touched-Stands :
    (stateful theirs : Bool) (key other : Key) (n : ℤ) (a b : Cluster)
    → Touched (own_slot theirs) (λ o. theirs ≡ stateful → other ≡ key → Keeps n o) other a b
    → Stands stateful key n a
    → Stands stateful key n b
Touched-Stands true true key other n a b t = Touched-own true stateful_set_slot key other n a b t
Touched-Stands false false key other n a b t = Touched-own false deployment_slot key other n a b t
Touched-Stands true false key other n a b t =
    Touched-spares deployment_slot _ other (Stands true key n) a b (λ m h. h) t
Touched-Stands false true key other n a b t =
    Touched-spares stateful_set_slot _ other (Stands false key n) a b (λ m h. h) t

-- A run for the instance does not take the workload under the key from it: the instance is not being
-- deleted, or names another workload.
abbrev pub IsHarmless : Key → IdlingResource → Type 0
IsHarmless key instance = (is_being_deleted instance ≡ false) ⊎ (workload_key instance ≢ key)

put-elsewhere :
    (slot : Slot Workload) (key other : Key) (n : ℤ) (p : Workload) (a : Cluster)
    → other ≢ key
    → ((o : Workload) × (slot.read a key ≡ some o) × Keeps n o)
    → (o : Workload) × (slot.read (slot.write (put other (some p) (slot.read a)) a) key ≡ some o)
      × Keeps n o
put-elsewhere slot key other n p a apart (o, there, keeps) =
    elim (Bool-cases (same_key other key)) [
      | inl same ↦ elim (apart (same_key-eq other key same)) [ ]
      | inr differs ↦ (o, rw (slot.read-write, differs) there, keeps)
    ]

pub Stands-elsewhere :
    (stateful theirs : Bool) (key other : Key) (n : ℤ) (p : Workload) (a : Cluster)
    → other ≢ key
    → Stands stateful key n a
    → Stands stateful key n
        ((own_slot theirs).write (put other (some p) ((own_slot theirs).read a)) a)
Stands-elsewhere true true key other n p a apart h =
    put-elsewhere stateful_set_slot key other n p a apart h
Stands-elsewhere false false key other n p a apart h =
    put-elsewhere deployment_slot key other n p a apart h
Stands-elsewhere true false key other n p a apart h = h
Stands-elsewhere false true key other n p a apart h = h
