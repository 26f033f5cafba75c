-- ===== src/Operator/Gives.antt =====
-- What is known when a process goes on, and when it has ended: `Gives I E P m Q` says that `m`, begun
-- where `I` and `P` hold of the system, goes on with a value and a system of which `I` and `Q` hold,
-- or ends, in a way of which `E` holds, with a system of which `I` holds.
use kidle.Prelude.{String, ◌≡◌, refl}
use kidle.Exec.{Result, ok, err, panic, Exec, End, exited, panicked}
use kidle.Operator.Process.{
  ProcessState, Proc, Progress, going, ended, going_on, calls, or_exit, must, ◌>>=◌,
}

abbrev pub After :
    {S A : Type 0}
    → (S → Type 0)
    → (End → Type 0)
    → (A → S → Type 0)
    → Progress A × ProcessState S
    → Type 0
After I E Q (going a, p) = I p.system × Q a p.system
After I E Q (ended e, p) = I p.system × E e

pub record Gives {S A : Type 0} (I : S → Type 0) (E : End → Type 0) (P : S → Type 0)
    (m : Proc (ProcessState S) A) (Q : A → S → Type 0) : Type 0 where
  pub holds : (p : ProcessState S) → I p.system → P p.system → After I E Q (m p)

module _ {S A B : Type 0} (I : S → Type 0) (E : End → Type 0) (Q : A → S → Type 0)
    (R : B → S → Type 0) (k : A → Proc (ProcessState S) B)
    (gives : (a : A) → Gives I E (Q a) (k a) R) where
  bind_holds :
      (r : Progress A × ProcessState S)
      → After I E Q r
      → After I E R (((λ (p : ProcessState S). r) >>= k) r.1)
  bind_holds (going a, p) (i, q) = (gives a).holds p i q
  bind_holds (ended e, p) i = i

weakened :
    {S A : Type 0} (I : S → Type 0) (E : End → Type 0) (Q R : A → S → Type 0)
    → ((a : A) (s : S) → Q a s → R a s)
    → (r : Progress A × ProcessState S) → After I E Q r
    → After I E R r
weakened I E Q R f (going a, p) (i, q) = (i, f a p.system q)
weakened I E Q R f (ended e, p) i = i

module _ {S A : Type 0} (I P : S → Type 0) (E : End → Type 0) (fails : E (exited 1))
    (panics : (m : String) → E (panicked m)) (p : ProcessState S) (before : P p.system) where
  or_exit_holds :
      (text : String) (m : Exec S A) (r : Result A × S)
      → m p.system ≡ r
      → I r.1
      → After I E (λ a t. (s : S) × P s × (m s ≡ (ok a, t))) (or_exit text (λ s. r) p)
  or_exit_holds text m (ok a, t) e i = (i, (p.system, before, e))
  or_exit_holds text m (err x, t) e i = (i, fails)
  or_exit_holds text m (panic x, t) e i = (i, panics x)

  must_holds :
      (m : Exec S A) (r : Result A × S)
      → m p.system ≡ r
      → I r.1
      → After I E (λ a t. (s : S) × P s × (m s ≡ (ok a, t))) (must (λ s. r) p)
  must_holds m (ok a, t) e i = (i, (p.system, before, e))
  must_holds m (err x, t) e i = (i, panics "error")
  must_holds m (panic x, t) e i = (i, panics x)

  calls_holds :
      (m : Proc S A) (r : Progress A × S)
      → m p.system ≡ r
      → ((x : End) → r.0 ≡ ended x → E x)
      → I r.1
      → After I E (λ a t. (s : S) × P s × (m s ≡ (going a, t))) (calls (λ s. r) p)
  calls_holds m (going a, t) e end i = (i, (p.system, before, e))
  calls_holds m (ended x, t) e end i = (i, end x refl)

module _ {S : Type 0} {I : S → Type 0} {E : End → Type 0} where
  pub bind-Gives :
      {A B : Type 0} {P : S → Type 0} {Q : A → S → Type 0} {R : B → S → Type 0}
      (m : Proc (ProcessState S) A) (k : A → Proc (ProcessState S) B)
      → Gives I E P m Q
      → ((a : A) → Gives I E (Q a) (k a) R)
      → Gives I E P (m >>= k) R
  bind-Gives {A} {B} {P} {Q} {R} m k f g = record {
    holds = λ p i h. bind_holds I E Q R k g (m p) (f.holds p i h);
  }

  module _ {A : Type 0} {P : S → Type 0} (fails : E (exited 1))
      (panics : (m : String) → E (panicked m)) where
    pub or_exit-Gives :
        (text : String) (m : Exec S A)
        → ((s : S) → I s → I (m s).1)
        → Gives I E P (or_exit text m) (λ a t. (s : S) × P s × (m s ≡ (ok a, t)))
    or_exit-Gives text m spares = record {
      holds = λ p i h.
          or_exit_holds I P E fails panics p h text m (m p.system) refl (spares p.system i);
    }

    pub must-Gives :
        (m : Exec S A)
        → ((s : S) → I s → I (m s).1)
        → Gives I E P (must m) (λ a t. (s : S) × P s × (m s ≡ (ok a, t)))
    must-Gives m spares = record {
      holds = λ p i h. must_holds I P E fails panics p h m (m p.system) refl (spares p.system i);
    }

    pub calls-Gives :
        (m : Proc S A)
        → ((s : S) (x : End) → (m s).0 ≡ ended x → E x)
        → ((s : S) → I s → I (m s).1)
        → Gives I E P (calls m) (λ a t. (s : S) × P s × (m s ≡ (going a, t)))
    calls-Gives m end spares = record {
      holds = λ p i h.
          calls_holds I P E fails panics p h m (m p.system) refl (end p.system) (spares p.system i);
    }

  pub weaken-Gives :
      {A : Type 0} {P : S → Type 0} {Q R : A → S → Type 0} (m : Proc (ProcessState S) A)
      → Gives I E P m Q
      → ((a : A) (s : S) → Q a s → R a s)
      → Gives I E P m R
  weaken-Gives {A} {P} {Q} {R} m f g = record {
    holds = λ p i h. weakened I E Q R g (m p) (f.holds p i h);
  }

  pub going_on-Gives :
      {A : Type 0} {P : S → Type 0} {R : A → S → Type 0} (a : A)
      → ((s : S) → P s → R a s)
      → Gives I E P (going_on a) R
  going_on-Gives a f = record { holds = λ p i h. (i, f p.system h) }
