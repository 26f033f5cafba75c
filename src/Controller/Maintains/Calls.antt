-- ===== src/Controller/Maintains/Calls.antt =====
-- The client's calls for one type of object maintain what does not depend on the objects of the
-- type.
use kidle.Prelude.{refl, inl, inr}
use kidle.Exec.{Result-cases}
use kidle.Meta.{Key, MetaObject}
use kidle.Cluster.{Cluster, ObjectClient, Slot, Stored, IsLawful}
use kidle.Controller.State.{calling}
use kidle.Controller.Maintains.{Maintains, calling-Maintains}

module _ {W O : Type 0} {view : W → Cluster} {slot : Slot O} {object : MetaObject O}
    {c : ObjectClient W O} (law : IsLawful view slot object c) (I : Cluster → Type 0) where
  pub get-Maintains : (k : Key) → Maintains (λ w. I (view w)) (calling (c.get k))
  get-Maintains k = calling-Maintains (c.get k) (λ w h. rw (law.get-view k w) h)

  module _
      (spares : (m : Stored O) (cluster : Cluster) → I cluster → I (slot.write m cluster)) where
    pub update-Maintains : (o : O) → Maintains (λ w. I (view w)) (calling (c.update o))
    update-Maintains o = calling-Maintains (c.update o) (λ w h.
        elim (Result-cases (c.update o w).0) [
          | inl (u, done) ↦ rw (law.update-ok o w u done) (spares _ (view w) h)
          | inr (inl (m, failed)) ↦ rw (law.update_failed o w (rw failed refl)) h
          | inr (inr (m, failed)) ↦ rw (law.update_failed o w (rw failed refl)) h
        ])

    pub create-Maintains : (o : O) → Maintains (λ w. I (view w)) (calling (c.create o))
    create-Maintains o = calling-Maintains (c.create o) (λ w h.
        elim (Result-cases (c.create o w).0) [
          | inl (u, done) ↦ rw (law.create-ok o w u done) (spares _ (view w) h)
          | inr (inl (m, failed)) ↦ rw (law.create_failed o w (rw failed refl)) h
          | inr (inr (m, failed)) ↦ rw (law.create_failed o w (rw failed refl)) h
        ])

    pub delete-Maintains : (o : O) → Maintains (λ w. I (view w)) (calling (c.delete o))
    delete-Maintains o =
        calling-Maintains (c.delete o)
          (λ w h. let (left, written) = law.delete-view o w in rw written (spares _ (view w) h))
