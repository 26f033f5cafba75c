-- ===== src/Controller/WithIdler/Kept.antt =====
-- What holds of the idler's object in every outcome of a run of `ReconcileWithIdler`.
use kidle.Prelude.{◌≡◌, refl, ap, ◌∙◌, Bool, true, false, some, arith, inl, inr}
use kidle.Exec.{Result, Result-cases, ok, err, panic}
use kidle.Meta.{MetaObject}
use kidle.Api.{IdlingResource, is_being_deleted}
use kidle.Cluster.{Cluster, Client, Slot, put, is_ok}
use kidle.Idler.{Idler}
use kidle.Idler.Contract.{IsIdler, Preserves}
use kidle.Idler.Change.{Local}
use kidle.Idler.Change.Updated.{key, IsCurrent, Updated, Updated-refl, Updated-IsCurrent, put-put}
use kidle.Controller.State.{Run, Libraries, local_of}
use kidle.Controller.WithIdler.{wake, put_to_sleep, follow, reconcile_with_idler}
use kidle.Controller.WithIdler.Laws.{referenced}

module _ {W O : Type 0} (view : W → Cluster) (slot : Slot O) (object : MetaObject O) where
  -- At most the object that is stored under the idler's key has changed, and one with `P` is stored
  -- there still.
  abbrev pub Kept : (O → Type 0) → Local W O → W → Type 0
  Kept P s w =
      (o : O) × P o
      × (view w
          ≡ slot.write (put (key view slot object s) (some o) (slot.read (view s.cluster)))
              (view s.cluster))

  module _ {P : O → Type 0} where
    Kept-Updated :
        {s t : Local W O} → Updated view slot object s t → P t.object → Kept P s t.cluster
    Kept-Updated {s} {t} h p = (t.object, p, h.written)

    Kept-same :
        (s : Local W O) (w : W)
        → IsCurrent view slot object s
        → P s.object
        → view w ≡ view s.cluster
        → Kept P s w
    Kept-same s w current p e = (s.object, p, e ∙ (Updated-refl view slot object s current).written)

    Kept-after : {s t : Local W O} (w : W) → Updated view slot object s t → Kept P t w → Kept P s w
    Kept-after {s} {t} w h (o, p, e) =
        (o, p, e ∙ rw (h.named, h.written, slot.read-write, slot.write-write, put-put) refl)

module _ {W O : Type 0} {view : W → Cluster} {slot : Slot O} {object : MetaObject O}
    (client : Client W) (libraries : Libraries) {idler : Idler W O} {Asleep Awake : O → Type 0}
    (contract : IsIdler view slot object idler Asleep Awake) {P : O → Type 0}
    (keeps : Preserves view slot object idler P) where
  -- The cluster after a branch is that after the idler's method, whatever its result.
  cluster-wake :
      (instance : IdlingResource) (run : Run W O)
      → (wake client libraries idler instance run).1.world.cluster
        ≡ (idler.wakeup (local_of run)).1.cluster
  unfolding wake
  cluster-wake instance run = elim (Result-cases (idler.wakeup (local_of run)).0) [
    | inl (p, e) ↦ ground arith
    | inr (inl (m, e)) ↦ ground arith
    | inr (inr (m, e)) ↦ ground arith
  ]

  cluster-put_to_sleep :
      (instance : IdlingResource) (run : Run W O)
      → (put_to_sleep client libraries idler instance run).1.world.cluster
        ≡ (idler.idle (local_of run)).1.cluster
  unfolding put_to_sleep
  cluster-put_to_sleep instance run = elim (Result-cases (idler.idle (local_of run)).0) [
    | inl (p, e) ↦ ground arith
    | inr (inl (m, e)) ↦ ground arith
    | inr (inr (m, e)) ↦ ground arith
  ]

  idle-Kept :
      (instance : IdlingResource) (s : Local W O)
      → idler.need_idle instance s.object ≡ ok true
      → IsCurrent view slot object s
      → P s.object
      → Kept view slot object P s (idler.idle s).1.cluster
  idle-Kept instance s wish current p =
      let t = (idler.idle s).1 in
      elim (Result-cases (idler.idle s).0) [
        | inl (u, e) ↦
            let run = ap (λ r. (r, t)) e in
            Kept-Updated view slot object (contract.idle-ok s t u current run).0
              (keeps.by_idle instance s t u current wish run p)
        | inr (inl (m, e)) ↦
            Kept-same view slot object s t.cluster current p
              (contract.idle_failed s t (idler.idle s).0 refl (rw e refl))
        | inr (inr (m, e)) ↦
            Kept-same view slot object s t.cluster current p
              (contract.idle_failed s t (idler.idle s).0 refl (rw e refl))
      ]

  wakeup-Kept :
      (instance : IdlingResource) (s : Local W O)
      → idler.need_wakeup instance s.object ≡ ok true
      → IsCurrent view slot object s
      → P s.object
      → Kept view slot object P s (idler.wakeup s).1.cluster
  wakeup-Kept instance s wish current p =
      let t = (idler.wakeup s).1 in
      elim (Result-cases (idler.wakeup s).0) [
        | inl (n, e) ↦
            let run = ap (λ r. (r, t)) e in
            Kept-Updated view slot object (contract.wakeup-ok s t n current run).0
              (keeps.by_wakeup instance s t n current wish run p)
        | inr (inl (m, e)) ↦
            Kept-same view slot object s t.cluster current p
              (contract.wakeup_failed s t (idler.wakeup s).0 refl (rw e refl))
        | inr (inr (m, e)) ↦
            Kept-same view slot object s t.cluster current p
              (contract.wakeup_failed s t (idler.wakeup s).0 refl (rw e refl))
      ]

  follow-Kept_at :
      (instance : IdlingResource) (run : Run W O) (wakes idles : Result Bool)
      → idler.need_wakeup instance run.object ≡ wakes
      → idler.need_idle instance run.object ≡ idles
      → IsCurrent view slot object (local_of run)
      → P run.object
      → Kept view slot object P
          (local_of run)
          (follow client libraries idler instance run).1.world.cluster
  unfolding follow
  follow-Kept_at instance run (ok true) idles g h current p =
      rw g (rw (cluster-wake instance run) (wakeup-Kept instance (local_of run) g current p))
  follow-Kept_at instance run (ok false) (ok true) g h current p =
      rw (g, h)
        (rw (cluster-put_to_sleep instance run) (idle-Kept instance (local_of run) h current p))
  follow-Kept_at instance run (ok false) (ok false) g h current p =
      rw (g, h) (Kept-same view slot object (local_of run) run.world.cluster current p refl)
  follow-Kept_at instance run (ok false) (err e) g h current p =
      rw (g, h) (Kept-same view slot object (local_of run) run.world.cluster current p refl)
  follow-Kept_at instance run (ok false) (panic m) g h current p =
      rw (g, h) (Kept-same view slot object (local_of run) run.world.cluster current p refl)
  follow-Kept_at instance run (err e) idles g h current p =
      rw g (Kept-same view slot object (local_of run) run.world.cluster current p refl)
  follow-Kept_at instance run (panic m) idles g h current p =
      rw g (Kept-same view slot object (local_of run) run.world.cluster current p refl)

  -- The cluster after a run is that after the branch, when the first step succeeds.
  cluster-reconcile_with_idler :
      (instance : IdlingResource) (run : Run W O)
      → (idler.set_reference instance.meta.name (local_of run)).0 ≡ ok tt
      → is_being_deleted instance ≡ false
      → (reconcile_with_idler client libraries idler instance run).1.world.cluster
        ≡ (follow client libraries idler instance
            (referenced client libraries idler instance run)).1.world.cluster
  unfolding reconcile_with_idler
  cluster-reconcile_with_idler instance run g lives = rw (g, lives) refl

  cluster-reconcile_failed :
      (instance : IdlingResource) (run : Run W O)
      → is_ok (idler.set_reference instance.meta.name (local_of run)).0 ≡ false
      → (reconcile_with_idler client libraries idler instance run).1.world.cluster
        ≡ (idler.set_reference instance.meta.name (local_of run)).1.cluster
  unfolding reconcile_with_idler
  cluster-reconcile_failed instance run fails =
      elim (Result-cases (idler.set_reference instance.meta.name (local_of run)).0) [
        | inl (u, e) ↦ ground arith
        | inr (inl (m, e)) ↦ rw e refl
        | inr (inr (m, e)) ↦ rw e refl
      ]

  after_reference :
      (instance : IdlingResource) (run : Run W O)
      → (idler.set_reference instance.meta.name (local_of run)).0 ≡ ok tt
      → is_being_deleted instance ≡ false
      → IsCurrent view slot object (local_of run)
      → P run.object
      → Kept view slot object P
          (local_of run)
          (reconcile_with_idler client libraries idler instance run).1.world.cluster
  after_reference instance run g lives current p =
      let start = referenced client libraries idler instance run in
      let set = ap (λ r. (r, local_of start)) g in
      let (first, _) =
        contract.set_reference-ok instance.meta.name (local_of run) (local_of start) tt current
          set in
      rw (cluster-reconcile_with_idler instance run g lives) (
        Kept-after view slot object _ first (
          follow-Kept_at instance start _ _ refl refl (Updated-IsCurrent view slot object first) (
            keeps.by_reference instance.meta.name (local_of run) (local_of start) tt current set
              p)))

  without_reference :
      (instance : IdlingResource) (run : Run W O)
      → is_ok (idler.set_reference instance.meta.name (local_of run)).0 ≡ false
      → IsCurrent view slot object (local_of run)
      → P run.object
      → Kept view slot object P
          (local_of run)
          (reconcile_with_idler client libraries idler instance run).1.world.cluster
  without_reference instance run fails current p =
      rw (cluster-reconcile_failed instance run fails) (
        Kept-same view slot object (local_of run) _ current p
          (contract.set_reference_failed instance.meta.name (local_of run) _ _ refl fails))

  -- A run for an instance that is not being deleted, whether it succeeds, fails or panics, has
  -- changed at most the workload that is stored under the idler's key, which is stored still and
  -- has what the idler's methods preserve.
  pub reconcile_with_idler-Kept :
      (instance : IdlingResource) (run : Run W O)
      → is_being_deleted instance ≡ false
      → IsCurrent view slot object (local_of run)
      → P run.object
      → Kept view slot object P
          (local_of run)
          (reconcile_with_idler client libraries idler instance run).1.world.cluster
  reconcile_with_idler-Kept instance run lives current p =
      elim (Result-cases (idler.set_reference instance.meta.name (local_of run)).0) [
        | inl (u, e) ↦ after_reference instance run e lives current p
        | inr (inl (m, e)) ↦ without_reference instance run (rw e refl) current p
        | inr (inr (m, e)) ↦ without_reference instance run (rw e refl) current p
      ]
