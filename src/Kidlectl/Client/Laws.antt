-- ===== src/Kidlectl/Client/Laws.antt =====
-- What the two operations of the client of kidlectl store.
use kidle.Prelude.{
  ◌≡◌, refl, ap, sym, ◌∙◌, Bool, true, false, not, inl, inr, some, arith, Bool-cases,
}
use kidle.Exec.{Result, ok, err, panic}
use kidle.Meta.{Key, key_of}
use kidle.Api.{IdlingResource, idling_resource_object}
use kidle.Cluster.{Cluster, ObjectClient, put, is_ok, is_gone, idling_resource_slot, IsLawful}
use kidle.Idler.Change.Updated.{put_stored}
use kidle.Kidlectl.Client.{with_idle, same_flag, apply_desired_idle_state}

-- The cluster with another IdlingResource under a key.
abbrev pub with_resource : Key → IdlingResource → Cluster → Cluster
with_resource key ir c = record c { idling_resources = put key (some ir) c.idling_resources }

same_flag-eq : (a b : Bool) → same_flag a b ≡ true → a ≡ b
same_flag-eq true true h = refl
same_flag-eq true false h = cc
same_flag-eq false true h = cc
same_flag-eq false false h = refl

-- The flag of the stored IdlingResource is `idle` now, and was the opposite if `changed`.
pub record Applied (before after : Cluster) (idle changed : Bool) (req : Key) : Type 0 where
  pub ir : IdlingResource
  pub found : before.idling_resources req ≡ some ir
  pub was : changed ≡ not (same_flag ir.spec.idle idle)
  pub written : after ≡ with_resource req (with_idle ir idle) before

module _ {W : Type 0} {view : W → Cluster} {c : ObjectClient W IdlingResource}
    (law : IsLawful view idling_resource_slot idling_resource_object c) where
  -- The answer of a read.
  seen :
      (req : Key) (w : W) (ir : IdlingResource)
      → (c.get req w).0 ≡ ok ir
      → ((view w).idling_resources req ≡ some ir)
        × (key_of ir.meta ≡ req)
        × (is_gone ir.meta ≡ false)
  seen req w ir g =
      let there : (view w).idling_resources req ≡ some ir = law.get-ok req w ir g in
      (there, law.get_key req w ir there, law.get_lives req w ir there)

  kept :
      (idle : Bool) (req : Key) (w x : W) (ir : IdlingResource)
      → (c.get req w).0 ≡ ok ir
      → same_flag ir.spec.idle idle ≡ true
      → x ≡ (c.get req w).1
      → Applied (view w) (view x) idle false req
  kept idle req w x ir g same moved =
      let (there, _, _) = seen req w ir g in
      let flag : with_idle ir idle ≡ ir = rw (← same_flag-eq ir.spec.idle idle same) refl in
      record {
        ir = ir;
        found = there;
        was = rw same refl;
        written =
            ap view moved
            ∙ law.get-view req w
            ∙ ap (λ m. record (view w) { idling_resources = m })
                (sym (put_stored req (view w).idling_resources))
            ∙ rw (there, flag) refl;
      }

  stored :
      (idle : Bool) (req : Key) (w x : W) (ir : IdlingResource)
      → (c.get req w).0 ≡ ok ir
      → same_flag ir.spec.idle idle ≡ false
      → (c.update (with_idle ir idle) (c.get req w).1).0 ≡ ok tt
      → x ≡ (c.update (with_idle ir idle) (c.get req w).1).1
      → Applied (view w) (view x) idle true req
  stored idle req w x ir g other answered moved =
      let (there, named, lives) = seen req w ir g in
      record {
        ir = ir;
        found = there;
        was = rw other refl;
        written =
            ap view moved
            ∙ law.update-ok (with_idle ir idle) (c.get req w).1 tt answered
            ∙ rw (law.get-view, named, lives) refl;
      }

  apply-ok_at :
      (idle changed : Bool) (req : Key) (w x : W) (got : Result IdlingResource)
      → (c.get req w).0 ≡ got
      → apply_desired_idle_state c idle req w ≡ (ok changed, x)
      → Applied (view w) (view x) idle changed req
  unfolding apply_desired_idle_state
  apply-ok_at idle changed req w x (ok ir) g e = elim (Bool-cases (same_flag ir.spec.idle idle)) [
    | inl same ↦
        let unchanged : changed ≡ false = ground arith in
        rw unchanged (kept idle req w x ir g same (ground arith))
    | inr other ↦
        let is_changed : changed ≡ true = ground arith in
        rw is_changed (stored idle req w x ir g other (ground arith) (ground arith))
  ]
  apply-ok_at idle changed req w x (err m) g e = ground arith
  apply-ok_at idle changed req w x (panic m) g e = ground arith

  -- An `ApplyDesiredIdleState` that succeeds leaves the stored IdlingResource with the desired flag
  -- and all its other fields as they were, tells whether the flag was another one, and changes no
  -- other object.
  pub apply_desired_idle_state-Applied :
      (idle changed : Bool) (req : Key) (w x : W)
      → apply_desired_idle_state c idle req w ≡ (ok changed, x)
      → Applied (view w) (view x) idle changed req
  apply_desired_idle_state-Applied idle changed req w x =
      apply-ok_at idle changed req w x (c.get req w).0 refl

  apply_failed_at :
      (idle : Bool) (req : Key) (w x : W) (r : Result Bool) (got : Result IdlingResource)
      → (c.get req w).0 ≡ got
      → apply_desired_idle_state c idle req w ≡ (r, x)
      → is_ok r ≡ false
      → view x ≡ view w
  unfolding apply_desired_idle_state
  apply_failed_at idle req w x r (ok ir) g e h =
      ground (arith, law.get-view req w, law.update_failed (with_idle ir idle) (c.get req w).1)
  apply_failed_at idle req w x r (err m) g e h = ground (arith, law.get-view req w)
  apply_failed_at idle req w x r (panic m) g e h = ground (arith, law.get-view req w)

  -- An `ApplyDesiredIdleState` that fails changes no stored object.
  pub apply_desired_idle_state_failed :
      (idle : Bool) (req : Key) (w x : W) (r : Result Bool)
      → apply_desired_idle_state c idle req w ≡ (r, x)
      → is_ok r ≡ false
      → view x ≡ view w
  apply_desired_idle_state_failed idle req w x r =
      apply_failed_at idle req w x r (c.get req w).0 refl
