-- ===== src/Controller/State.antt =====
-- The state of a run of the reconcile loop, and the libraries that it calls.
use kidle.Prelude.{ℕ, String, ◌≡◌, true, false, List, [], ◌∷◌, ◌++◌, ◌==◌, if◌then◌else◌}
use kidle.Exec.{Error, Result, ok, err, panic, Exec}
use kidle.Array.{contains_string}
use kidle.Cluster.Retry.{RetryOnConflict, IsRetry}
use kidle.Idler.Change.{Local}

pub data EventType : Type 0 where
  normal warning : EventType

-- The text of an event: `failure` is a text with the error printed behind it.
pub data Message : Type 0 where
  text : String → Message
  failure : String → Error → Message

-- `EventRecorder.Event(instance, type, reason, message)`
pub record Event : Type 0 where
  pub event_type : EventType
  pub reason : String
  pub message : Message

-- `reconcile.Result`; the time is in seconds, and 0 is the empty result.
pub record Outcome : Type 0 where
  pub requeue_after : ℕ

abbrev pub finished : Outcome
finished = record { requeue_after = 0 }

-- The cluster, and the events recorded so far.
pub record World (W : Type 0) : Type 0 where
  pub cluster : W
  pub events : List Event

-- The same with the idler's copy of its object.
pub record Run (W O : Type 0) : Type 0 where
  pub object : O
  pub world : World W

-- client-go and controller-runtime: `controllerutil.AddFinalizer` and `RemoveFinalizer` on the
-- list of finalizers.
pub record Libraries : Type 1 where
  pub retry_on_conflict : RetryOnConflict
  pub add_finalizer : List String → String → List String
  pub remove_finalizer : List String → String → List String

-- What their documentation says.
pub record IsDocumented (l : Libraries) : Type 1 where
  pub retries : IsRetry l.retry_on_conflict
  pub contains_string-add_finalizer :
      (finalizers : List String) (n m : String)
      → contains_string (l.add_finalizer finalizers n) m
        ≡ (if n == m then true else contains_string finalizers m)
  pub contains_string-remove_finalizer :
      (finalizers : List String) (n m : String)
      → contains_string (l.remove_finalizer finalizers n) m
        ≡ (if n == m then false else contains_string finalizers m)

module _ {W : Type 0} where
  -- `r.Event(…)`
  abbrev pub emit : EventType → String → Message → World W → World W
  emit event_type reason message w = record w {
    events =
        w.events ++ (record { event_type = event_type; reason = reason; message = message } ∷ []);
  }

  -- A call of the client.
  abbrev pub calling : {A : Type 0} → Exec W A → Exec (World W) A
  calling m w = let (r, cluster) = m w.cluster in (r, record w { cluster = cluster })

-- `if err := m; err != nil { return …, handler(err) }`; a panic goes on.
module _ {S A : Type 0} where
  abbrev handled : (Error → Exec S A) → Result A × S → Result A × S
  handled handler (ok a, s) = (ok a, s)
  handled handler (err e, s) = handler e s
  handled handler (panic m, s) = (panic m, s)

  abbrev pub on_error : Exec S A → (Error → Exec S A) → Exec S A
  on_error m handler s = handled handler (m s)

-- `err := m` whose error the code goes on with.
module _ {S A : Type 0} where
  abbrev taken : Result A × S → Result (Result A) × S
  taken (ok a, s) = (ok (ok a), s)
  taken (err e, s) = (ok (err e), s)
  taken (panic m, s) = (panic m, s)

  abbrev pub caught : Exec S A → Exec S (Result A)
  caught m s = taken (m s)

module _ {W : Type 0} where
  abbrev pub record_event : EventType → String → Message → Exec (World W) (Unit {0})
  record_event event_type reason message w = (ok tt, emit event_type reason message w)

  -- `r.Event(…); return …, fmt.Errorf(text, err)`
  abbrev pub fail_after_event : {A : Type 0} → String → String → String → Error → Exec (World W) A
  fail_after_event reason message returned e w =
      (err (Error.errorf returned e), emit warning reason (failure message e) w)

module _ {W O : Type 0} where
  abbrev pub local_of : Run W O → Local W O
  local_of run = record { object = run.object; cluster = run.world.cluster }

  -- A call of a method of the idler.
  abbrev pub with_idler : {A : Type 0} → Exec (Local W O) A → Exec (Run W O) A
  with_idler m run =
      let (r, l) = m (local_of run) in
      (r, record { object = l.object; world = record (run.world) { cluster = l.cluster } })

  -- Code that leaves the idler's object alone.
  abbrev pub on_world : {A : Type 0} → Exec (World W) A → Exec (Run W O) A
  on_world m run = let (r, w) = m run.world in (r, record run { world = w })

  abbrev pub event : EventType → String → Message → Exec (Run W O) (Unit {0})
  event event_type reason message run =
      (ok tt, record run { world = emit event_type reason message run.world })

  -- `r.Event(…); return …, fmt.Errorf(text, err)`
  abbrev pub fail_with : {A : Type 0} → String → String → String → Error → Exec (Run W O) A
  fail_with reason message returned e run = (
    err (Error.errorf returned e),
    record run { world = emit warning reason (failure message e) run.world },
  )
