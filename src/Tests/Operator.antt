-- ===== src/Tests/Operator.antt =====
-- Starts of the operator on a system that counts its calls, and with a port that may be taken.
use kidle.Prelude.{ℕ, ◌+◌, ◌≡◌, ◌↔◌, refl, Bool, true, false, [], ◌∷◌, ◌⊎◌, if◌then◌else◌}
use kidle.Exec.{Exec, ok, err, plain, End, exited}
use kidle.Operator.{Runtime, Flags, default_flags, main, init, set_up, prepare}
use kidle.Operator.Process.{ProcessState, going, ended}
use kidle.Operator.Ready.{Ready, Spares, Stopped}
use kidle.Operator.Laws.{main-Ready, main_returns_iff}

-- The calls so far, the manager's starts, and whether its port is taken.
record System : Type 0 where
  made : ℕ
  starts : ℕ
  taken : Bool

abbrev call : {A : Type 0} → A → Exec System A
call a s = (ok a, record s { made = s.made + 1 })

abbrev given_flags : Flags
given_flags = record default_flags { kidlectl_image = "registry/kidlectl:v1" }

abbrev runtime : Runtime System (Unit {0}) (Unit {0})
runtime = record {
  add_client_go_types = call tt;
  add_types = λ version types. call tt;
  parse_flags = λ defaults s. (going given_flags, s);
  get_config_or_die = λ s. (going tt, s);
  new_manager =
      λ config options s. if s.taken then (err (plain "address already in use"), s) else call tt s;
  complete = λ manager builder r. call tt;
  add_healthz_check = λ manager name. call tt;
  add_readyz_check = λ manager name. call tt;
  start = λ manager s. (ok tt, record s { starts = s.starts + 1 });
}

abbrev begun : Bool → ProcessState System
begun taken = record { system = record { made = 0; starts = 0; taken = taken }; log = [] }

-- The manager was not started.
abbrev NotStarted : System → Type 0
NotStarted s = s.starts ≡ 0

managed-NotStarted :
    (s : System) (taken : Bool)
    → s.taken ≡ taken
    → NotStarted s
    → NotStarted (if taken then (err (plain "address already in use"), s) else call tt s).1
managed-NotStarted s true e h = h
managed-NotStarted s false e h = h

spares : Spares runtime NotStarted
spares = record {
  scheme = λ s h. h;
  types = λ s h. h;
  parsed = λ s h. h;
  configured = λ s h. h;
  managed = λ config options s h. managed-NotStarted s s.taken refl h;
  registered = λ manager builder r s h. h;
  healthy = λ manager name s h. h;
  readied = λ manager name s h. h;
}

-- With the port taken, the process ends with the code 1.
refused : main runtime (begun true) ≡ (
  ended (exited 1),
  record {
    system = record { made = 2; starts = 0; taken = true };
    log = "unable to start manager" ∷ [];
  },
)
unfolding main prepare init set_up
refused = refl

main-Ready_example :
    ((e : End) × ((main runtime (begun true)).0 ≡ ended e)
      × Stopped runtime e
      × NotStarted (main runtime (begun true)).1.system)
    ⊎ ((manager : Unit {0}) × (now : System) × Ready runtime (begun true).system now manager
        × NotStarted now
        × ((main runtime (begun true)).1.system ≡ (runtime.start manager now).1))
main-Ready_example = main-Ready runtime NotStarted (begun true) spares refl

abbrev ready : System
ready = record { made = 6; starts = 0; taken = false }

all_ready : Ready runtime (begun false).system ready tt
all_ready = record {
  flags = given_flags;
  config = tt;
  s1 = record { made = 1; starts = 0; taken = false };
  s2 = record { made = 2; starts = 0; taken = false };
  s3 = record { made = 2; starts = 0; taken = false };
  s4 = record { made = 2; starts = 0; taken = false };
  s5 = record { made = 3; starts = 0; taken = false };
  s6 = record { made = 4; starts = 0; taken = false };
  s7 = record { made = 5; starts = 0; taken = false };
  scheme = refl;
  types = refl;
  parsed = refl;
  configured = refl;
  managed = refl;
  registered = refl;
  healthy = refl;
  readied = refl;
}

-- The run that returns.
abbrev done : ProcessState System
done = record {
  system = record { made = 6; starts = 1; taken = false };
  log = "starting manager" ∷ [];
}

main_returns_iff_example : (main runtime (begun false) ≡ (going tt, done)) ↔ (
    (manager : Unit {0}) × (now after : System) × Ready runtime (begun false).system now manager
    × (runtime.start manager now ≡ (ok tt, after))
    × (done ≡ record { system = after; log = "starting manager" ∷ [] }))
main_returns_iff_example = main_returns_iff runtime (begun false) done

returns_done : main runtime (begun false) ≡ (going tt, done)
returns_done =
    (main_returns_iff runtime (begun false) done).1 (tt, ready, done.system, all_ready, refl, refl)
