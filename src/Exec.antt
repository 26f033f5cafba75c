-- ===== src/Exec.antt =====
-- Go's errors as values, and code with state. A function of the source that returns `(A, error)`
-- and may panic returns a `Result`; one that also changes state is an `Exec`.
use kidle.Prelude.{ℕ, ◌≡◌, refl, ◌⊎◌, inl, inr, String, Bool, true, false}

-- `metav1.StatusReason` of an error of the API server, as far as the code tells reasons apart.
pub data Reason : Type 0 where
  not_found conflict already_exists other_reason : Reason

-- An error is an answer of the API server, an error of `strconv`, or `fmt.Errorf` of a text and,
-- under `%v`, the error that it prints.
pub data Error : Type 0 where
  api : Reason → String → Error
  bad_syntax out_of_range : String → Error
  plain : String → Error
  errorf : String → Error → Error

-- `errors.IsNotFound`: what `%v` prints into another error is no longer found.
abbrev pub is_not_found : Error → Bool
is_not_found (api not_found message) = true
is_not_found _ = false

pub data Result {ℓ} (A : Type ℓ) : Type ℓ where
  ok : A → Result A
  err : Error → Result A
  panic : String → Result A

abbrev pub Exec {ℓ} : Type ℓ → Type ℓ → Type ℓ
Exec S A = S → Result A × S

module _ {ℓ} {S A : Type ℓ} where
  abbrev pub pure : A → Exec S A
  pure a s = (ok a, s)

  abbrev pub raise : Error → Exec S A
  raise e s = (err e, s)

  abbrev pub lift : Result A → Exec S A
  lift r s = (r, s)

module _ {ℓ} {S A B : Type ℓ} where
  abbrev continue : (A → Exec S B) → Result A × S → Result B × S
  continue f (ok a, s) = f a s
  continue f (err e, s) = (err e, s)
  continue f (panic m, s) = (panic m, s)

  infixl 5 ◌>>=◌
  abbrev pub ◌>>=◌ : Exec S A → (A → Exec S B) → Exec S B
  ◌>>=◌ m f s = continue f (m s)

module _ {S B : Type 0} where
  infixl 5 ◌>>◌
  abbrev pub ◌>>◌ : Exec S (Unit {0}) → Exec S B → Exec S B
  m >> k = m >>= λ _. k

-- What a computed result may be.
pub Result-cases {ℓ} :
    {A : Type ℓ} (r : Result A)
    → ((a : A) × (r ≡ ok a)) ⊎ (((e : Error) × (r ≡ err e)) ⊎ ((m : String) × (r ≡ panic m)))
Result-cases (ok a) = inl (a, refl)
Result-cases (err e) = inr (inl (e, refl))
Result-cases (panic m) = inr (inr (m, refl))

pub is_not_found-cases :
    (e : Error) → (is_not_found e ≡ false) ⊎ ((message : String) × (e ≡ api not_found message))
is_not_found-cases (api not_found m) = inr (m, refl)
is_not_found-cases (api conflict m) = inl refl
is_not_found-cases (api already_exists m) = inl refl
is_not_found-cases (api other_reason m) = inl refl
is_not_found-cases (bad_syntax m) = inl refl
is_not_found-cases (out_of_range m) = inl refl
is_not_found-cases (plain m) = inl refl
is_not_found-cases (errorf m e) = inl refl

-- How a process ends: `main` returns, or `os.Exit` with a code, or a panic.
pub data End : Type 0 where
  returned : End
  exited : ℕ → End
  panicked : String → End
