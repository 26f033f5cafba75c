-- ===== src/Operator/Process.antt =====
-- A process that logs and may end: by `os.Exit`, or by a panic.
use kidle.Prelude.{String, List, [], ◌∷◌, ◌++◌}
use kidle.Exec.{Result, ok, err, panic, Exec, End, exited, panicked}

-- A step gives a value, or the process ends.
pub data Progress (A : Type 0) : Type 0 where
  going : A → Progress A
  ended : End → Progress A

abbrev pub Proc : Type 0 → Type 0 → Type 0
Proc S A = S → Progress A × S

-- The state of the libraries and the system, and the log.
pub record ProcessState (S : Type 0) : Type 0 where
  pub system : S
  pub log : List String

module _ {S A B : Type 0} where
  abbrev continue : (A → Proc S B) → Progress A × S → Progress B × S
  continue f (going a, s) = f a s
  continue f (ended e, s) = (ended e, s)

  infixl 5 ◌>>=◌
  abbrev pub ◌>>=◌ : Proc S A → (A → Proc S B) → Proc S B
  ◌>>=◌ m f s = continue f (m s)

module _ {S B : Type 0} where
  infixl 5 ◌>>◌
  abbrev pub ◌>>◌ : Proc S (Unit {0}) → Proc S B → Proc S B
  m >> k = m >>= λ _. k

module _ {S : Type 0} where
  abbrev pub going_on : {A : Type 0} → A → Proc (ProcessState S) A
  going_on a p = (going a, p)

  -- A call that may end the process itself.
  abbrev pub calls : {A : Type 0} → Proc S A → Proc (ProcessState S) A
  calls m p = let (r, s) = m p.system in (r, record p { system = s })

  abbrev pub logs : String → Proc (ProcessState S) (Unit {0})
  logs line p = (going tt, record p { log = p.log ++ (line ∷ []) })

  abbrev logged :
      {A : Type 0} → String → ProcessState S → Result A × S → Progress A × ProcessState S
  logged text p (ok a, s) = (going a, record p { system = s })
  logged text p (err e, s) = (ended (exited 1), record { system = s; log = p.log ++ (text ∷ []) })
  logged text p (panic m, s) = (ended (panicked m), record p { system = s })

  -- `if err != nil { setupLog.Error(err, text); os.Exit(1) }`
  abbrev pub or_exit : {A : Type 0} → String → Exec S A → Proc (ProcessState S) A
  or_exit text m p = logged text p (m p.system)

  abbrev required : {A : Type 0} → ProcessState S → Result A × S → Progress A × ProcessState S
  required p (ok a, s) = (going a, record p { system = s })
  required p (err e, s) = (ended (panicked "error"), record p { system = s })
  required p (panic m, s) = (ended (panicked m), record p { system = s })

  -- `utilruntime.Must`
  abbrev pub must : {A : Type 0} → Exec S A → Proc (ProcessState S) A
  must m p = required p (m p.system)
