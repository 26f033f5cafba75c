-- ===== src/Controller/Steps.antt =====
-- The steps of code that has succeeded: what each `←` of a do block has returned.
use kidle.Prelude.{◌≡◌, refl, arith}
use kidle.Exec.{Result, ok, err, panic, Exec, lift, ◌>>=◌}
use kidle.Controller.State.{caught}

module _ {S A B : Type 0} (k : A → Exec S B) where
  bind_step_at :
      (m : Exec S A) (s t : S) (b : B) (r : Result A)
      → (m s).0 ≡ r
      → (m >>= k) s ≡ (ok b, t)
      → (a : A) × (m s ≡ (ok a, (m s).1)) × (k a (m s).1 ≡ (ok b, t))
  bind_step_at m s t b (ok a) g e = (a, ground arith, ground arith)
  bind_step_at m s t b (err x) g e = ground arith
  bind_step_at m s t b (panic x) g e = ground arith

  pub bind_step :
      (m : Exec S A) (s t : S) (b : B)
      → (m >>= k) s ≡ (ok b, t)
      → (a : A) × (m s ≡ (ok a, (m s).1)) × (k a (m s).1 ≡ (ok b, t))
  bind_step m s t b = bind_step_at m s t b _ refl

  pub lift_step :
      (r : Result A) (s t : S) (b : B)
      → (lift r >>= k) s ≡ (ok b, t)
      → (a : A) × (r ≡ ok a) × (k a s ≡ (ok b, t))
  lift_step (ok a) s t b e = (a, refl, e)
  lift_step (err x) s t b e = ground arith
  lift_step (panic x) s t b e = ground arith

module _ {S A B : Type 0} (k : Result A → Exec S B) where
  caught_step_at :
      (m : Exec S A) (s t : S) (b : B) (r : Result A)
      → (m s).0 ≡ r
      → (caught m >>= k) s ≡ (ok b, t)
      → k (m s).0 (m s).1 ≡ (ok b, t)
  caught_step_at m s t b (ok a) g e = ground arith
  caught_step_at m s t b (err x) g e = ground arith
  caught_step_at m s t b (panic x) g e = ground arith

  pub caught_step :
      (m : Exec S A) (s t : S) (b : B)
      → (caught m >>= k) s ≡ (ok b, t)
      → k (m s).0 (m s).1 ≡ (ok b, t)
  caught_step m s t b = caught_step_at m s t b _ refl
