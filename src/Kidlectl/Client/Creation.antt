-- ===== src/Kidlectl/Client/Creation.antt =====
-- What `CreateIdlingResource` stores.
use Prim.Native.String.{◌++◌ as ◌<>◌}
use text.Mathlib.TextLemmas.{nil-append, cons-append}
use kidle.Prelude.{
  String, ◌≡◌, refl, ap, sym, ◌∙◌, Bool, true, false, List, [], ◌∷◌, arith, Bool-cases, inl, inr,
}
use kidle.Exec.{Result, Result-cases, ok, err, panic}
use kidle.Array.{contains_string}
use kidle.Strings.{split}
use kidle.Strings.Split.{lacks, split_pair}
use kidle.Meta.{Key, key_of}
use kidle.Api.{IdlingResource, idling_resource_object}
use kidle.Cluster.{Cluster, ObjectClient, is_ok, idling_resource_slot, IsLawful}
use kidle.Kidlectl.Resources.{
  ApiResourceList, Discovery, all_prefixes, get_allowed_resources, print_allowed_resources,
}
use kidle.Kidlectl.Client.{
  built, create_built, create_of_values, create_idling_resource, invalid_kind,
}
use kidle.Kidlectl.Client.Laws.{with_resource}

not-ok-invalid_kind :
    (format : String → String) (kind : String) (kinds : Result String)
    → is_ok (invalid_kind format kind kinds) ≡ false
unfolding invalid_kind
not-ok-invalid_kind format kind (ok texts) = refl
not-ok-invalid_kind format kind (err e) = refl
not-ok-invalid_kind format kind (panic m) = refl

module _ {W : Type 0} {view : W → Cluster} (discovery : Discovery W)
    (quiet : (v : W) → view (discovery.server_groups_and_resources v).1 ≡ view v) where
  allowed-view_at :
      (w : W) (lists : Result (List ApiResourceList))
      → (discovery.server_groups_and_resources w).0 ≡ lists
      → view (get_allowed_resources discovery w).1 ≡ view w
  unfolding get_allowed_resources
  allowed-view_at w (ok lists) g = elim (Result-cases (all_prefixes discovery lists (ok []))) [
    | inl (prefixes, e) ↦ ground (arith, quiet w)
    | inr (inl (m, e)) ↦ ground (arith, quiet w)
    | inr (inr (m, e)) ↦ ground (arith, quiet w)
  ]
  allowed-view_at w (err m) g = ground (arith, quiet w)
  allowed-view_at w (panic m) g = ground (arith, quiet w)

  -- Asking for the allowed resources changes nothing.
  view-get_allowed_resources : (w : W) → view (get_allowed_resources discovery w).1 ≡ view w
  view-get_allowed_resources w = allowed-view_at w (discovery.server_groups_and_resources w).0 refl

  module _ (format : String → String) {c : ObjectClient W IdlingResource}
      (law : IsLawful view idling_resource_slot idling_resource_object c) where
    create_built-ok :
        (ir : IdlingResource) (w x : W) (done : Bool)
        → create_built c ir w ≡ (ok done, x)
        → (done ≡ true) × (view x ≡ with_resource (key_of ir.meta) ir (view w))
    unfolding create_built
    create_built-ok ir w x done e =
        let answered : (c.create ir w).0 ≡ ok tt = ground arith in
        let moved : x ≡ (c.create ir w).1 = ground arith in
        (ground arith, ap view moved ∙ law.create-ok ir w tt answered)

    create_of_values-ok_at :
        (idle done : Bool) (ref kind name : String) (more : List String) (req : Key) (w x : W)
        (got : Result (List String))
        → (get_allowed_resources discovery w).0 ≡ got
        → create_of_values c discovery format idle ref (kind ∷ name ∷ more) req w ≡ (ok done, x)
        → (done ≡ true)
          × (view x ≡ with_resource req (built idle kind name req) (view w))
          × (resources : List String) × (got ≡ ok resources)
          × (contains_string resources kind ≡ true)
    unfolding create_of_values
    create_of_values-ok_at idle done ref kind name more req w x (ok resources) g e =
        elim (Bool-cases (contains_string resources kind)) [
          | inl allowed ↦
              let w' : W = (get_allowed_resources discovery w).1 in
              let run : create_built c (built idle kind name req) w' ≡ (ok done, x) =
                ground arith in
              let (made, written) = create_built-ok (built idle kind name req) w' x done run in
              (made, written ∙ rw (view-get_allowed_resources w) refl, resources, refl, allowed)
          | inr refused ↦
              ground (arith, not-ok-invalid_kind format kind (print_allowed_resources resources))
        ]
    create_of_values-ok_at idle done ref kind name more req w x (err m) g e = ground arith
    create_of_values-ok_at idle done ref kind name more req w x (panic m) g e = ground arith

    -- A `CreateIdlingResource` that succeeds, for a reference of a kind and a name without a slash,
    -- stores an IdlingResource of this kind and name under the requested key, and the kind is one of
    -- the allowed resources. It changes no other object.
    pub create_idling_resource-ok :
        (idle done : Bool) (kind name : String) (req : Key) (w x : W)
        → lacks "/" kind ≡ true
        → lacks "/" name ≡ true
        → create_idling_resource c discovery format idle (kind <> "/" <> name) req w ≡ (ok done, x)
        → (done ≡ true)
          × (view x ≡ with_resource req (built idle kind name req) (view w))
          × (resources : List String) × ((get_allowed_resources discovery w).0 ≡ ok resources)
          × (contains_string resources kind ≡ true)
    unfolding create_idling_resource
    create_idling_resource-ok idle done kind name req w x h k e =
        let text : String = kind <> "/" <> name in
        let parts : split "/" text ≡ kind ∷ name ∷ [] =
          rw cons-append (rw nil-append (split_pair "/" kind name h k)) in
        create_of_values-ok_at idle done text kind name [] req w x
          (get_allowed_resources discovery w).0 refl
          (ap (λ values. create_of_values c discovery format idle text values req w) (sym parts)
            ∙ e)
