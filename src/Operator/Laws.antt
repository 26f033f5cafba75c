-- ===== src/Operator/Laws.antt =====
-- When the operator's manager is started, and how `main` ends.
use kidle.Prelude.{◌≡◌, ◌↔◌, ap, sym, ◌∙◌, refl, String, [], ◌∷◌, ◌++◌, ◌⊎◌, inl, inr}
use kidle.Exec.{Result, ok, err, panic, Exec, End}
use kidle.Operator.{Runtime, setup_with_manager, init, set_up, prepare, main}
use kidle.Operator.Process.{ProcessState, Progress, going, ended, or_exit}
use kidle.Operator.Gives.{After}
use kidle.Operator.Ready.{Ready, Spares, Stopped, prepare-Gives}

-- Whatever the call answers, the system is that after the call.
system-or_exit_at :
    {S A : Type 0} (text : String) (p : ProcessState S) (r : Result A × S)
    → (or_exit text (λ s. r) p).1.system ≡ r.1
system-or_exit_at text p (ok a, s) = refl
system-or_exit_at text p (err e, s) = refl
system-or_exit_at text p (panic m, s) = refl

system-or_exit :
    {S A : Type 0} (text : String) (m : Exec S A) (p : ProcessState S)
    → (or_exit text m p).1.system ≡ (m p.system).1
system-or_exit text m p = system-or_exit_at text p (m p.system)

module _ {S Config Manager : Type 0} (runtime : Runtime S Config Manager) where
  started :
      (I : S → Type 0) (before : S) (p : ProcessState S) (r : Progress Manager × ProcessState S)
      → prepare runtime p ≡ r
      → After I (Stopped runtime) (λ manager now. Ready runtime before now manager) r
      → ((e : End) × ((main runtime p).0 ≡ ended e)
          × Stopped runtime e
          × I (main runtime p).1.system)
        ⊎ ((manager : Manager) × (now : S) × Ready runtime before now manager
            × I now
            × ((main runtime p).1.system ≡ (runtime.start manager now).1))
  unfolding main
  started I before p (going manager, q) e (i, ready) = inr (
    manager,
    q.system,
    ready,
    i,
    rw e (
        system-or_exit "problem running manager" (runtime.start manager)
          (record q { log = q.log ++ ("starting manager" ∷ []) })),
  )
  started I before p (ended x, q) e (i, why) = inl (x, rw e refl, why, rw e i)

  -- `main` starts the manager only when every step before has succeeded, in the order of the code:
  -- in every outcome either what the other calls keep of the system is kept, and the process has
  -- ended with the exit code 1, by a panic, or in the library of the flags or of the configuration;
  -- or the manager was started that was made with the address of the metrics, the address of the
  -- probes and the leader election of the flags, and with which the reconciler with the image of the
  -- flags, for its three kinds of workloads and the four kinds of objects that it owns, and the two
  -- checks were registered.
  pub main-Ready :
      (I : S → Type 0) (p : ProcessState S)
      → Spares runtime I
      → I p.system
      → ((e : End) × ((main runtime p).0 ≡ ended e)
          × Stopped runtime e
          × I (main runtime p).1.system)
        ⊎ ((manager : Manager) × (now : S) × Ready runtime p.system now manager
            × I now
            × ((main runtime p).1.system ≡ (runtime.start manager now).1))
  main-Ready I p spares i =
      started I p.system p (prepare runtime p) refl
        ((prepare-Gives runtime I spares p.system).holds p i refl)

  main_after :
      (p : ProcessState S) (now : S) (manager : Manager)
      → Ready runtime p.system now manager
      → main runtime p
        ≡ or_exit "problem running manager"
            (runtime.start manager)
            (record { system = now; log = p.log ++ ("starting manager" ∷ []) })
  unfolding main prepare init set_up setup_with_manager
  main_after p now manager r =
      rw (r.scheme, r.types, r.parsed, r.configured, r.managed, r.registered, r.healthy, r.readied)
        refl

  -- How `main` has returned.
  abbrev pub Ran : ProcessState S → ProcessState S → Type 0
  Ran p q =
      (manager : Manager) × (now after : S) × Ready runtime p.system now manager
      × (runtime.start manager now ≡ (ok tt, after))
      × (q ≡ record { system = after; log = p.log ++ ("starting manager" ∷ []) })

  returned_at :
      (p q : ProcessState S) (manager : Manager) (now : S) (r : Result (Unit {0}) × S)
      → Ready runtime p.system now manager
      → runtime.start manager now ≡ r
      → main runtime p ≡ (going tt, q)
      → Ran p q
  returned_at p q manager now (ok u, after) ready g e =
      let run = rw g at (main_after p now manager ready) in
      (manager, now, after, ready, g, ap (λ r. r.1) (sym e ∙ run))
  returned_at p q manager now (err m, after) ready g e =
      let run = rw g at (main_after p now manager ready) in cc (run, e)
  returned_at p q manager now (panic m, after) ready g e =
      let run = rw g at (main_after p now manager ready) in cc (run, e)

  nothing-Spares : Spares runtime (λ s. Unit {0})
  nothing-Spares = record {
    scheme = λ s h. tt;
    types = λ s h. tt;
    parsed = λ s h. tt;
    configured = λ s h. tt;
    managed = λ config options s h. tt;
    registered = λ manager builder r s h. tt;
    healthy = λ manager name s h. tt;
    readied = λ manager name s h. tt;
  }

  returned : (p q : ProcessState S) → main runtime p ≡ (going tt, q) → Ran p q
  returned p q e = elim (main-Ready (λ s. Unit {0}) p nothing-Spares tt) [
    | inl (x, ends, _, _) ↦ cc (ends, e)
    | inr (manager, now, ready, _, _) ↦ returned_at p q manager now _ ready refl e
  ]

  runs : (p q : ProcessState S) → Ran p q → main runtime p ≡ (going tt, q)
  runs p q (manager, now, after, ready, start, same) =
      let run = rw start at (main_after p now manager ready) in rw same run

  -- `main` returns exactly when each step before the start of the manager has succeeded, in the order
  -- of the code, and the manager, started in the state after them, has returned without an error: it
  -- returns in the state that the manager has left, with one line more in the log. An error of any
  -- step is therefore not passed over.
  pub main_returns_iff :
      (p q : ProcessState S)
      → (main runtime p ≡ (going tt, q)) ↔ (
          (manager : Manager) × (now after : S) × Ready runtime p.system now manager
          × (runtime.start manager now ≡ (ok tt, after))
          × (q ≡ record { system = after; log = p.log ++ ("starting manager" ∷ []) }))
  main_returns_iff p q = (returned p q, runs p q)
