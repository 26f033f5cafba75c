-- ===== src/Idler/Contract.antt =====
-- What the reconcile loop relies on, of any idler: the contract of the interface `Idler`.
use kidle.Prelude.{String, ◌≡◌, true, false, Option, none, some, ◌==◌, if◌then◌else◌}
use kidle.Prelude.Int.{ℤ}
use kidle.Exec.{Result, ok}
use kidle.Meta.{MetaObject, get_annotation, has_annotation}
use kidle.Api.{IdlingResource, metadata_idling_resource_reference}
use kidle.Cluster.{Cluster, Slot, is_ok}
use kidle.Idler.{Idler}
use kidle.Idler.Change.{Local}
use kidle.Idler.Change.Updated.{IsCurrent, Updated}
use kidle.Idler.Object.{cleaned}
use kidle.Idler.Object.Laws.{given_or, is_kidle_annotation}

-- `Asleep` and `Awake` say of an object that it is idled or woken up, as far as the code promises
-- it. A method that succeeds on the stored object stores the changed one and changes no other
-- object; one that fails changes no object.
pub record IsIdler {W O : Type 0} (view : W → Cluster) (slot : Slot O) (object : MetaObject O)
    (i : Idler W O) (Asleep Awake : O → Type 0) : Type 0 where
  pub set_reference-ok :
      (name : String) (s t : Local W O) (u : Unit {0})
      → IsCurrent view slot object s
      → i.set_reference name s ≡ (ok u, t)
      → Updated view slot object s t
        × ((a : String)
            → get_annotation (object.meta t.object) a ≡ (
                if metadata_idling_resource_reference == a
                then some (
                    given_or
                      (get_annotation (object.meta s.object) metadata_idling_resource_reference)
                      name)
                else get_annotation (object.meta s.object) a))
  pub remove_annotations-ok :
      (s t : Local W O) (u : Unit {0})
      → IsCurrent view slot object s
      → has_annotation (object.meta s.object) metadata_idling_resource_reference ≡ true
      → i.remove_annotations s ≡ (ok u, t)
      → Updated view slot object s t
        × (cleaned object s.object ≡ ok t.object)
        × ((a : String)
            → get_annotation (object.meta t.object) a
              ≡ (if is_kidle_annotation a then none else get_annotation (object.meta s.object) a))
  pub idle-ok :
      (s t : Local W O) (u : Unit {0})
      → IsCurrent view slot object s
      → i.idle s ≡ (ok u, t)
      → Updated view slot object s t
        × Asleep t.object
        × (get_annotation (object.meta t.object) metadata_idling_resource_reference
            ≡ get_annotation (object.meta s.object) metadata_idling_resource_reference)
  pub wakeup-ok :
      (s t : Local W O) (p : Option ℤ)
      → IsCurrent view slot object s
      → i.wakeup s ≡ (ok p, t)
      → Updated view slot object s t
        × Awake t.object
        × (get_annotation (object.meta t.object) metadata_idling_resource_reference
            ≡ get_annotation (object.meta s.object) metadata_idling_resource_reference)
  -- An idling resource asks for one of the two at most, and for none if its wish is met.
  pub idle_not_woken :
      (instance : IdlingResource) (o : O)
      → instance.spec.idle ≡ true
      → i.need_wakeup instance o ≡ ok false
  pub woken_not_idle :
      (instance : IdlingResource) (o : O)
      → instance.spec.idle ≡ false
      → i.need_idle instance o ≡ ok false
  pub asleep :
      (instance : IdlingResource) (o : O)
      → instance.spec.idle ≡ true
      → i.need_idle instance o ≡ ok false
      → Asleep o
  pub awake :
      (instance : IdlingResource) (o : O)
      → instance.spec.idle ≡ false
      → i.need_wakeup instance o ≡ ok false
      → Awake o
  -- A method that fails, by an error or a panic, changes no stored object.
  pub set_reference_failed :
      (name : String) (s t : Local W O) (r : Result (Unit {0}))
      → i.set_reference name s ≡ (r, t)
      → is_ok r ≡ false
      → view t.cluster ≡ view s.cluster
  pub remove_annotations_failed :
      (s t : Local W O) (r : Result (Unit {0}))
      → i.remove_annotations s ≡ (r, t)
      → is_ok r ≡ false
      → view t.cluster ≡ view s.cluster
  pub idle_failed :
      (s t : Local W O) (r : Result (Unit {0}))
      → i.idle s ≡ (r, t)
      → is_ok r ≡ false
      → view t.cluster ≡ view s.cluster
  pub wakeup_failed :
      (s t : Local W O) (r : Result (Option ℤ))
      → i.wakeup s ≡ (r, t)
      → is_ok r ≡ false
      → view t.cluster ≡ view s.cluster
  -- A reference is set once, and an object that is asleep is not idled again.
  pub set_reference_again :
      (name v : String) (s : Local W O)
      → get_annotation (object.meta s.object) metadata_idling_resource_reference ≡ some v
      → i.set_reference name s ≡ (ok tt, s)
  pub asleep_rests :
      (instance : IdlingResource) (o : O) → Asleep o → i.need_idle instance o ≡ ok false

-- What a method that succeeds keeps of the stored object, where the loop calls it.
pub record Preserves {W O : Type 0} (view : W → Cluster) (slot : Slot O) (object : MetaObject O)
    (i : Idler W O) (P : O → Type 0) : Type 0 where
  pub by_reference :
      (name : String) (s t : Local W O) (u : Unit {0})
      → IsCurrent view slot object s
      → i.set_reference name s ≡ (ok u, t)
      → P s.object
      → P t.object
  pub by_idle :
      (instance : IdlingResource) (s t : Local W O) (u : Unit {0})
      → IsCurrent view slot object s
      → i.need_idle instance s.object ≡ ok true
      → i.idle s ≡ (ok u, t)
      → P s.object
      → P t.object
  pub by_wakeup :
      (instance : IdlingResource) (s t : Local W O) (p : Option ℤ)
      → IsCurrent view slot object s
      → i.need_wakeup instance s.object ≡ ok true
      → i.wakeup s ≡ (ok p, t)
      → P s.object
      → P t.object

pub nothing-Preserves :
    {W O : Type 0} (view : W → Cluster) (slot : Slot O) (object : MetaObject O) (i : Idler W O)
    → Preserves view slot object i (λ o. Unit {0})
nothing-Preserves view slot object i = record {
  by_reference = λ name s t u current e p. tt;
  by_idle = λ instance s t u current wish e p. tt;
  by_wakeup = λ instance s t n current wish e p. tt;
}
