-- ===== src/Controller/WithIdler/Outcomes.antt =====
-- What a run of `ReconcileWithIdler` that succeeds has done, for any idler that keeps its contract.
use kidle.Prelude.{String, ◌≡◌, refl, ◌∙◌, Bool, true, false, Option, some, if◌then◌else◌, inl, inr}
use kidle.Exec.{ok}
use kidle.Meta.{MetaObject, get_annotation}
use kidle.Api.{IdlingResource, is_being_deleted, metadata_idling_resource_reference}
use kidle.Cluster.{Cluster, Client, Slot}
use kidle.Idler.{Idler}
use kidle.Idler.Contract.{IsIdler}
use kidle.Idler.Change.Updated.{IsCurrent, Updated, Updated-refl, Updated-trans, Updated-IsCurrent}
use kidle.Idler.Object.Laws.{given_or}
use kidle.Controller.State.{Outcome, Run, Libraries, local_of}
use kidle.Controller.WithIdler.{follow, reconcile_with_idler}
use kidle.Controller.WithIdler.Laws.{referenced, referenced_first, follow_idle, follow_wake}

module _ {W O : Type 0} {view : W → Cluster} {slot : Slot O} {object : MetaObject O}
    (client : Client W) (libraries : Libraries) {idler : Idler W O} {Asleep Awake : O → Type 0}
    (contract : IsIdler view slot object idler Asleep Awake) where
  abbrev pub Current : Run W O → Type 0
  Current run = IsCurrent view slot object (local_of run)

  abbrev pub Moved : Run W O → Run W O → Type 0
  Moved run after = Updated view slot object (local_of run) (local_of after)

  abbrev pub reference : Run W O → Option String
  reference run = get_annotation (object.meta run.object) metadata_idling_resource_reference

  -- The object that is stored: the only one that has changed, in the state that the instance asks
  -- for, and with its old reference or else one to the instance.
  pub record Followed (instance : IdlingResource) (run after : Run W O) : Type 0 where
    pub moved : Moved run after
    pub state : if instance.spec.idle then Asleep after.object else Awake after.object
    pub referenced_by : reference after ≡ some (given_or (reference run) instance.meta.name)

  -- The first step.
  pub set_first :
      (instance : IdlingResource) (run after : Run W O) (out : Outcome)
      → Current run
      → reconcile_with_idler client libraries idler instance run ≡ (ok out, after)
      → Moved run (referenced client libraries idler instance run)
        × (reference (referenced client libraries idler instance run)
            ≡ some (given_or (reference run) instance.meta.name))
  set_first instance run after out current e =
      let (set, _) = referenced_first client libraries idler instance run after out e in
      let (moved, annotated) = contract.set_reference-ok instance.meta.name _ _ tt current set in
      (moved, annotated metadata_idling_resource_reference)

  follow-Asleep :
      (instance : IdlingResource) (run after : Run W O) (out : Outcome)
      → instance.spec.idle ≡ true
      → Current run
      → follow client libraries idler instance run ≡ (ok out, after)
      → Moved run after × Asleep after.object × (reference after ≡ reference run)
  follow-Asleep instance run after out h current e =
      elim (follow_idle client libraries idler instance run after out
        (idler.need_idle instance run.object) (contract.idle_not_woken instance run.object h) refl
        e) [
          | inl slept ↦ contract.idle-ok (local_of run) (local_of after) tt current slept
          | inr (no_wish, same) ↦ rw same (
            Updated-refl view slot object (local_of run) current,
            contract.asleep instance run.object h no_wish,
            refl,
          )
        ]

  follow-Awake :
      (instance : IdlingResource) (run after : Run W O) (out : Outcome)
      → instance.spec.idle ≡ false
      → Current run
      → follow client libraries idler instance run ≡ (ok out, after)
      → Moved run after × Awake after.object × (reference after ≡ reference run)
  follow-Awake instance run after out h current e =
      elim (follow_wake client libraries idler instance run after out
        (idler.need_wakeup instance run.object) refl (contract.woken_not_idle instance run.object h)
        e) [
          | inl (p, woke) ↦ contract.wakeup-ok (local_of run) (local_of after) p current woke
          | inr (no_wish, same) ↦ rw same (
            Updated-refl view slot object (local_of run) current,
            contract.awake instance run.object h no_wish,
            refl,
          )
        ]

  follow-state :
      (instance : IdlingResource) (run after : Run W O) (out : Outcome) (idle : Bool)
      → instance.spec.idle ≡ idle
      → Current run
      → follow client libraries idler instance run ≡ (ok out, after)
      → Moved run after
        × (if idle then Asleep after.object else Awake after.object)
        × (reference after ≡ reference run)
  follow-state instance run after out true = follow-Asleep instance run after out
  follow-state instance run after out false = follow-Awake instance run after out

  -- A run that succeeds for an instance that is not being deleted leaves the workload stored in
  -- the state that the instance asks for, referenced, and the only object that has changed.
  pub reconcile_with_idler-Followed :
      (instance : IdlingResource) (run after : Run W O) (out : Outcome)
      → is_being_deleted instance ≡ false
      → Current run
      → reconcile_with_idler client libraries idler instance run ≡ (ok out, after)
      → Followed instance run after
  reconcile_with_idler-Followed instance run after out lives current e =
      let (first, set) = set_first instance run after out current e in
      let rest : follow client libraries idler instance
            (referenced client libraries idler instance run)
          ≡ (ok out, after) =
        rw lives at ((referenced_first client libraries idler instance run after out e).1) in
      let (second, state, kept) =
        follow-state instance (referenced client libraries idler instance run) after out
          instance.spec.idle refl (Updated-IsCurrent view slot object first) rest in
      record {
        moved = Updated-trans view slot object first second;
        state = state;
        referenced_by = kept ∙ set;
      }
