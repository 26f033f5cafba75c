-- ===== src/Idler/Change/Laws.antt =====
-- What a change stores, over every number of conflicts.
use kidle.Prelude.{◌≡◌, refl, ◌∙◌, false, some, arith}
use kidle.Exec.{Error, Result, ok, err, panic}
use kidle.Meta.{Key, key_of, MetaObject}
use kidle.Cluster.{Cluster, ObjectClient, Slot, put, is_ok, is_gone, IsLawful}
use kidle.Cluster.Retry.{RetryOnConflict, IsRetry, Retried-last}
use kidle.Idler.Change.{Local, attempt, change}

module _ {W O : Type 0} (view : W → Cluster) (slot : Slot O) (object : MetaObject O)
    (c : ObjectClient W O) (law : IsLawful view slot object c) (f : O → Result O) where
  abbrev key : Local W O → Key
  key s = key_of (object.meta s.object)

  -- What a state keeps while attempts fail.
  record Same (s t : Local W O) : Type 0 where
    viewed : view t.cluster ≡ view s.cluster
    named : key t ≡ key s

  -- `t` is `s` after a change that was stored.
  pub record Changed (s t : Local W O) : Type 0 where
    pub before : O
    pub found : slot.read (view s.cluster) (key s) ≡ some before
    pub computed : f before ≡ ok t.object
    pub written :
        view t.cluster
        ≡ slot.write (put (key s) (some t.object) (slot.read (view s.cluster))) (view s.cluster)

  module _ (keeps_key : (o o' : O) → f o ≡ ok o' → key_of (object.meta o') ≡ key_of (object.meta o))
      (keeps_life : (o o' : O)
        → f o ≡ ok o'
        → is_gone (object.meta o') ≡ is_gone (object.meta o)) where
    attempt_failed_at :
        (s t : Local W O) (r : Result (Unit {0})) (got : Result O)
        → (c.get (key s) s.cluster).0 ≡ got
        → attempt object c f s ≡ (r, t)
        → is_ok r ≡ false
        → Same s t
    unfolding attempt
    attempt_failed_at s t r (ok o) g e h = ground (
      arith,
      law.get-view (key s) s.cluster,
      law.get-ok (key s) s.cluster o,
      law.get_key (key s) s.cluster o,
      law.update_failed t.object (c.get (key s) s.cluster).1,
      keeps_key o t.object,
    )
    attempt_failed_at s t r (err m) g e h = ground (arith, law.get-view (key s) s.cluster)
    attempt_failed_at s t r (panic m) g e h = ground (arith, law.get-view (key s) s.cluster)

    attempt-ok_at :
        (s t : Local W O) (u : Unit {0}) (got : Result O)
        → (c.get (key s) s.cluster).0 ≡ got
        → attempt object c f s ≡ (ok u, t)
        → Changed s t
    unfolding attempt
    attempt-ok_at s t u (ok o) g e = record {
      before = o;
      found = law.get-ok (key s) s.cluster o g;
      computed = ground arith;
      written =
          let w : W = (c.get (key s) s.cluster).1 in
          let made : f o ≡ ok t.object = ground arith in
          let stored : (c.update t.object w).0 ≡ ok u = ground arith in
          let moved : t.cluster ≡ (c.update t.object w).1 = ground arith in
          let there : slot.read (view s.cluster) (key s) ≡ some o =
            law.get-ok (key s) s.cluster o g in
          let named : key t ≡ key s =
            keeps_key o t.object made ∙ law.get_key (key s) s.cluster o there in
          let lives : is_gone (object.meta t.object) ≡ false =
            keeps_life o t.object made ∙ law.get_lives (key s) s.cluster o there in
          rw moved (law.update-ok t.object w u stored ∙ rw (law.get-view, named, lives) refl);
    }
    attempt-ok_at s t u (err m) g e = ground arith
    attempt-ok_at s t u (panic m) g e = ground arith

    Same-attempt :
        (s m n : Local W O) (e : Error) → Same s m → attempt object c f m ≡ (err e, n) → Same s n
    Same-attempt s m n e same run =
        let next = attempt_failed_at m n (err e) (c.get (key m) m.cluster).0 refl run refl in
        record { viewed = next.viewed ∙ same.viewed; named = next.named ∙ same.named }

    -- The state in which the last attempt starts.
    last_attempt :
        {retry : RetryOnConflict} (retries : IsRetry retry) (s : Local W O)
        → (m : Local W O) × Same s m
          × (attempt object c f m ≡ retry (Local W O) (attempt object c f) s)
    last_attempt retries s =
        Retried-last (Same s) (Same-attempt s) (record { viewed = refl; named = refl })
          (retries (Local W O) (attempt object c f) s)

    Changed-of_Same : {s m t : Local W O} → Same s m → Changed m t → Changed s t
    Changed-of_Same {s} {m} {t} same ch = record {
      before = ch.before;
      found = rw (← same.viewed, ← same.named) ch.found;
      computed = ch.computed;
      written = rw (← same.viewed, ← same.named) ch.written;
    }

    -- A change that succeeds, after any number of conflicts, has stored the image of the object
    -- that was stored under its key, and has changed no other object.
    pub change-ok :
        {retry : RetryOnConflict} (retries : IsRetry retry) (s t : Local W O) (u : Unit {0})
        → change object c retry f s ≡ (ok u, t)
        → Changed s t
    unfolding change
    change-ok retries s t u e =
        let (m, same, run) = last_attempt retries s in
        Changed-of_Same same (attempt-ok_at m t u (c.get (key m) m.cluster).0 refl (run ∙ e))

    -- A change that fails, by an error of the API, of the edit or by a panic, leaves every stored
    -- object as it was.
    pub change_failed :
        {retry : RetryOnConflict} (retries : IsRetry retry) (s t : Local W O)
        (r : Result (Unit {0}))
        → change object c retry f s ≡ (r, t)
        → is_ok r ≡ false
        → view t.cluster ≡ view s.cluster
    unfolding change
    change_failed retries s t r e h =
        let (m, same, run) = last_attempt retries s in
        (attempt_failed_at m t r (c.get (key m) m.cluster).0 refl (run ∙ e) h).viewed ∙ same.viewed
