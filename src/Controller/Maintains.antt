-- ===== src/Controller/Maintains.antt =====
-- What a piece of the reconciler's code keeps of the cluster in every outcome: `Maintains I m` says
-- that `I` holds after `m`, by a result, an error or a panic, if it holds before.
pub mod Calls
use kidle.Prelude.{String, refl, ◌≡◌, Bool, true, false, if◌then◌else◌}
use kidle.Exec.{Error, errorf, raise, lift, Result, ok, err, panic, Exec, ◌>>=◌, ◌>>◌}
use kidle.Controller.State.{World, calling, on_error, caught}

pub record Maintains {W A : Type 0} (I : W → Type 0) (m : Exec (World W) A) : Type 0 where
  pub holds : (w : World W) → I w.cluster → I (m w).1.cluster

module _ {W A B : Type 0} (I : W → Type 0) (k : A → Exec (World W) B)
    (k_maintains : (a : A) → Maintains I (k a)) where
  bind_holds :
      (r : Result A × World W) → I r.1.cluster → I (((λ (w : World W). r) >>= k) r.1).1.cluster
  bind_holds (ok a, w) h = (k_maintains a).holds w h
  bind_holds (err e, w) h = h
  bind_holds (panic t, w) h = h

module _ {W A : Type 0} (I : W → Type 0) (handler : Error → Exec (World W) A)
    (handler_maintains : (e : Error) → Maintains I (handler e)) where
  on_error_holds :
      (r : Result A × World W) → I r.1.cluster → I (on_error (λ w. r) handler r.1).1.cluster
  on_error_holds (ok a, w) h = h
  on_error_holds (err e, w) h = (handler_maintains e).holds w h
  on_error_holds (panic t, w) h = h

module _ {W A B : Type 0} (I : W → Type 0) (k : Result A → Exec (World W) B)
    (k_maintains : (r : Result A) → Maintains I (k r)) where
  caught_holds :
      (r : Result A × World W)
      → I r.1.cluster
      → I ((caught (λ (w : World W). r) >>= k) r.1).1.cluster
  caught_holds (ok a, w) h = (k_maintains (ok a)).holds w h
  caught_holds (err e, w) h = (k_maintains (err e)).holds w h
  caught_holds (panic t, w) h = h

module _ {W A B : Type 0} (I : W → Type 0) (k : A → Exec (World W) B) (Q : A → Type 0)
    (k_maintains : (a : A) → Q a → Maintains I (k a)) where
  known_holds :
      (r : Result A × World W)
      → ((a : A) → r.0 ≡ ok a → Q a)
      → I r.1.cluster
      → I (((λ (w : World W). r) >>= k) r.1).1.cluster
  known_holds (ok a, w) q h = (k_maintains a (q a refl)).holds w h
  known_holds (err e, w) q h = h
  known_holds (panic t, w) q h = h

module _ {W : Type 0} {I : W → Type 0} where
  pub bind-Maintains :
      {A B : Type 0} (m : Exec (World W) A) (k : A → Exec (World W) B)
      → Maintains I m
      → ((a : A) → Maintains I (k a))
      → Maintains I (m >>= k)
  bind-Maintains m k f g = record { holds = λ w h. bind_holds I k g (m w) (f.holds w h) }

  pub then-Maintains :
      {B : Type 0} (m : Exec (World W) (Unit {0})) (k : Exec (World W) B)
      → Maintains I m
      → Maintains I k
      → Maintains I (m >> k)
  then-Maintains m k f g = bind-Maintains m (λ u. k) f (λ u. g)

  pub on_error-Maintains :
      {A : Type 0} (m : Exec (World W) A) (handler : Error → Exec (World W) A)
      → Maintains I m
      → ((e : Error) → Maintains I (handler e))
      → Maintains I (on_error m handler)
  on_error-Maintains m handler f g = record {
    holds = λ w h. on_error_holds I handler g (m w) (f.holds w h);
  }

  -- A call whose error the code goes on with.
  pub caught-Maintains :
      {A B : Type 0} (m : Exec (World W) A) (k : Result A → Exec (World W) B)
      → Maintains I m
      → ((r : Result A) → Maintains I (k r))
      → Maintains I (caught m >>= k)
  caught-Maintains m k f g = record { holds = λ w h. caught_holds I k g (m w) (f.holds w h) }

  pub calling-Maintains :
      {A : Type 0} (m : Exec W A) → ((w : W) → I w → I (m w).1) → Maintains I (calling m)
  calling-Maintains m f = record { holds = λ w h. f w.cluster h }

  -- Code that makes no call.
  pub still-Maintains :
      {A : Type 0} (m : Exec (World W) A)
      → ((w : World W) → (m w).1.cluster ≡ w.cluster)
      → Maintains I m
  still-Maintains m e = record { holds = λ w h. rw (e w) h }

  -- A test whose answer the branches rely on.
  pub tested-Maintains :
      {A : Type 0} (b : Bool) (m k : Exec (World W) A)
      → (b ≡ true → Maintains I m)
      → (b ≡ false → Maintains I k)
      → Maintains I (if b then m else k)
  tested-Maintains true m k f g = f refl
  tested-Maintains false m k f g = g refl

  pub if-Maintains :
      {A : Type 0} (b : Bool) (m k : Exec (World W) A)
      → Maintains I m
      → Maintains I k
      → Maintains I (if b then m else k)
  if-Maintains true m k f g = f
  if-Maintains false m k f g = g

  pub lift-Maintains :
      {A B : Type 0} (r : Result A) (k : A → Exec (World W) B)
      → ((a : A) → Maintains I (k a))
      → Maintains I (lift r >>= k)
  lift-Maintains r k f = bind-Maintains (lift r) k (still-Maintains _ (λ w. refl)) f

  -- `fmt.Errorf` of the error of a call.
  pub named-Maintains :
      {A : Type 0} (m : Exec (World W) A) (text : String)
      → Maintains I m
      → Maintains I (on_error m (λ x. raise (errorf text x)))
  named-Maintains m text f =
      on_error-Maintains m (λ x. raise (errorf text x)) f (λ x. still-Maintains _ (λ w. refl))

  -- Code whose rest uses what is known of the value that it goes on with.
  pub known-Maintains :
      {A B : Type 0} (m : Exec (World W) A) (k : A → Exec (World W) B) (Q : A → Type 0)
      → Maintains I m
      → ((w : World W) (a : A) → (m w).0 ≡ ok a → Q a)
      → ((a : A) → Q a → Maintains I (k a))
      → Maintains I (m >>= k)
  known-Maintains m k Q f q g = record {
    holds = λ w h. known_holds I k Q g (m w) (q w) (f.holds w h);
  }
