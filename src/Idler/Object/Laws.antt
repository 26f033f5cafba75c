-- ===== src/Idler/Object/Laws.antt =====
-- What `SetReference` and `RemoveAnnotations` store.
use kidle.Prelude.{
  String, ◌≡◌, refl, ◌∙◌, Bool, true, false, ◌||◌, Option, none, some, arith, ◌==◌, eq_iff,
  if◌then◌else◌, ◌⊎◌, inl, inr,
}
use kidle.Exec.{Result, ok}
use kidle.Meta.{
  ObjectMeta, MetaObject, add_annotation, remove_annotation, get_annotation, has_annotation,
}
use kidle.Meta.Laws.{
  get_annotation-add_annotation, get_annotation-remove_annotation, has_annotation-get_annotation,
}
use kidle.Api.{
  metadata_idling_resource_reference, metadata_previous_replicas, metadata_expected_state,
}
use kidle.Cluster.{Cluster, ObjectClient, Slot, is_ok, IsLawful}
use kidle.Cluster.Retry.{RetryOnConflict, IsRetry}
use kidle.Idler.Change.{Local, change}
use kidle.Idler.Change.Updated.{
  IsCurrent, Updated, Updated-refl, KeepsIdentity, change-Updated, change-view_failed,
}
use kidle.Idler.Object.{set_reference, remove_annotations, referenced, cleaned, without_annotations}

-- The annotation that is there, or else the given one.
abbrev pub given_or : Option String → String → String
given_or none v = v
given_or (some w) v = w

abbrev pub is_kidle_annotation : String → Bool
is_kidle_annotation a =
    metadata_idling_resource_reference == a
    || metadata_previous_replicas == a
    || metadata_expected_state == a

module _ {O : Type 0} (object : MetaObject O) where
  pub meta-referenced :
      (name : String) (o o' : O)
      → referenced object name o ≡ ok o'
      → object.meta o' ≡ add_annotation (object.meta o) metadata_idling_resource_reference name
  unfolding referenced
  meta-referenced name o o' e =
      let m = add_annotation (object.meta o) metadata_idling_resource_reference name in
      let same : object.with_meta o m ≡ o' = cc in rw (← same) (object.meta-with_meta o m)

  meta-cleaned :
      (o o' : O) → cleaned object o ≡ ok o' → object.meta o' ≡ without_annotations (object.meta o)
  unfolding cleaned
  meta-cleaned o o' e =
      let m = without_annotations (object.meta o) in
      let same : object.with_meta o m ≡ o' = cc in rw (← same) (object.meta-with_meta o m)

  get_annotation-cleaned :
      (o o' : O) (a : String)
      → cleaned object o ≡ ok o'
      → get_annotation (object.meta o') a
        ≡ (if is_kidle_annotation a then none else get_annotation (object.meta o) a)
  unfolding without_annotations
  get_annotation-cleaned o o' a e =
      rw (meta-cleaned o o' e) (simp get_annotation-remove_annotation (ground arith))

module _ {W O : Type 0} {view : W → Cluster} {slot : Slot O} {object : MetaObject O}
    {c : ObjectClient W O} (law : IsLawful view slot object c) {retry : RetryOnConflict}
    (retries : IsRetry retry) where
  pub referenced_keeps : (name : String) → KeepsIdentity view slot object (referenced object name)
  unfolding referenced add_annotation
  referenced_keeps name o o' e =
      (rw (meta-referenced object name o o' e) refl, rw (meta-referenced object name o o' e) refl)

  cleaned_keeps : KeepsIdentity view slot object (cleaned object)
  unfolding cleaned without_annotations remove_annotation
  cleaned_keeps o o' e =
      (rw (meta-cleaned object o o' e) refl, rw (meta-cleaned object o o' e) refl)

  set_reference-ok_at :
      (name : String) (s t : Local W O) (u : Unit {0}) (old : Option String)
      → get_annotation (object.meta s.object) metadata_idling_resource_reference ≡ old
      → IsCurrent view slot object s
      → set_reference object c retry name s ≡ (ok u, t)
      → Updated view slot object s t
        × ((a : String)
            → get_annotation (object.meta t.object) a ≡ (
                if metadata_idling_resource_reference == a
                then some (given_or old name)
                else get_annotation (object.meta s.object) a))
  unfolding set_reference
  set_reference-ok_at name s t u none g current e =
      let m : ObjectMeta = object.meta s.object in
      let absent : has_annotation m metadata_idling_resource_reference ≡ false =
        has_annotation-get_annotation m metadata_idling_resource_reference ∙ rw g refl in
      let run : change object c retry (referenced object name) s ≡ (ok u, t) = ground arith in
      let (updated, made) =
        change-Updated law retries (referenced object name) (referenced_keeps name) s t u current
          run in
      (
        updated,
        λ a.
            rw (meta-referenced object name s.object t.object made)
              (get_annotation-add_annotation m metadata_idling_resource_reference a name),
      )
  set_reference-ok_at name s t u (some v) g current e =
      let m : ObjectMeta = object.meta s.object in
      let there : has_annotation m metadata_idling_resource_reference ≡ true =
        has_annotation-get_annotation m metadata_idling_resource_reference ∙ rw g refl in
      let same : s ≡ t = ground arith in
      rw (← same) (
        Updated-refl view slot object s current,
        λ a. ground (arith, eq_iff metadata_idling_resource_reference a),
      )

  -- A `SetReference` that succeeds keeps a reference that is there and stores the given one
  -- otherwise. It changes no other annotation and no other object.
  pub set_reference-ok :
      (name : String) (s t : Local W O) (u : Unit {0})
      → IsCurrent view slot object s
      → set_reference object c retry name s ≡ (ok u, t)
      → Updated view slot object s t
        × ((a : String)
            → get_annotation (object.meta t.object) a ≡ (
                if metadata_idling_resource_reference == a
                then some (
                    given_or
                      (get_annotation (object.meta s.object) metadata_idling_resource_reference)
                      name)
                else get_annotation (object.meta s.object) a))
  set_reference-ok name s t u = set_reference-ok_at name s t u _ refl

  set_reference-cases_at :
      (name : String) (s t : Local W O) (u : Unit {0}) (has : Bool)
      → has_annotation (object.meta s.object) metadata_idling_resource_reference ≡ has
      → IsCurrent view slot object s
      → set_reference object c retry name s ≡ (ok u, t)
      → (t.object ≡ s.object) ⊎ (referenced object name s.object ≡ ok t.object)
  unfolding set_reference
  set_reference-cases_at name s t u true g current e =
      let same : s ≡ t = ground arith in inl (rw (← same) refl)
  set_reference-cases_at name s t u false g current e =
      let run : change object c retry (referenced object name) s ≡ (ok u, t) = ground arith in
      let (_, made) =
        change-Updated law retries (referenced object name) (referenced_keeps name) s t u current
          run in
      inr made

  -- The object after a `SetReference` that succeeds is the one before, or this with a reference.
  pub set_reference-cases :
      (name : String) (s t : Local W O) (u : Unit {0})
      → IsCurrent view slot object s
      → set_reference object c retry name s ≡ (ok u, t)
      → (t.object ≡ s.object) ⊎ (referenced object name s.object ≡ ok t.object)
  set_reference-cases name s t u = set_reference-cases_at name s t u _ refl

  -- A `SetReference` that fails changes no stored object.
  pub set_reference_failed :
      (name : String) (s t : Local W O) (r : Result (Unit {0}))
      → set_reference object c retry name s ≡ (r, t)
      → is_ok r ≡ false
      → view t.cluster ≡ view s.cluster
  unfolding set_reference
  set_reference_failed name s t r e h =
      ground (
        arith,
        change-view_failed law retries (referenced object name) (referenced_keeps name) s t r,
      )

  -- A `RemoveAnnotations` that succeeds, of an object that has a reference, stores the object
  -- without Kidle's three annotations. It changes no other annotation and no other object.
  pub remove_annotations-ok :
      (s t : Local W O) (u : Unit {0})
      → IsCurrent view slot object s
      → has_annotation (object.meta s.object) metadata_idling_resource_reference ≡ true
      → remove_annotations object c retry s ≡ (ok u, t)
      → Updated view slot object s t
        × (cleaned object s.object ≡ ok t.object)
        × ((a : String)
            → get_annotation (object.meta t.object) a
              ≡ (if is_kidle_annotation a then none else get_annotation (object.meta s.object) a))
  unfolding remove_annotations
  remove_annotations-ok s t u current has e =
      let run : change object c retry (cleaned object) s ≡ (ok u, t) = ground arith in
      let (updated, made) =
        change-Updated law retries (cleaned object) cleaned_keeps s t u current run in
      (updated, made, λ a. get_annotation-cleaned object s.object t.object a made)

  -- A `RemoveAnnotations` that fails changes no stored object.
  pub remove_annotations_failed :
      (s t : Local W O) (r : Result (Unit {0}))
      → remove_annotations object c retry s ≡ (r, t)
      → is_ok r ≡ false
      → view t.cluster ≡ view s.cluster
  unfolding remove_annotations
  remove_annotations_failed s t r e h =
      ground (arith, change-view_failed law retries (cleaned object) cleaned_keeps s t r)

module _ {W O : Type 0} (object : MetaObject O) (c : ObjectClient W O)
    (retry : RetryOnConflict) where
  pub set_reference_again :
      (name v : String) (s : Local W O)
      → get_annotation (object.meta s.object) metadata_idling_resource_reference ≡ some v
      → set_reference object c retry name s ≡ (ok tt, s)
  unfolding set_reference
  set_reference_again name v s g =
      let m : ObjectMeta = object.meta s.object in
      let there : has_annotation m metadata_idling_resource_reference ≡ true =
        has_annotation-get_annotation m metadata_idling_resource_reference ∙ rw g refl in
      ground arith
