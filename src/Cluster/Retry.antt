-- ===== src/Cluster/Retry.antt =====
-- `retry.RetryOnConflict` of client-go: a parameter, with its documented behaviour.
use kidle.Prelude.{String, ◌≡◌}
use kidle.Exec.{conflict, Error, api, Result, err, Exec}

abbrev pub RetryOnConflict : Type 1
RetryOnConflict = (S : Type 0) → Exec S (Unit {0}) → Exec S (Unit {0})

-- The function is run, run again only after a conflict, and the outcome is that of its last run.
pub data Retried {S : Type 0} (fn : Exec S (Unit {0})) : S → Result (Unit {0}) × S → Type 0 where
  last : {s : S} {r : Result (Unit {0}) × S} → fn s ≡ r → Retried fn s r
  again :
      {s t : S} {r : Result (Unit {0}) × S} (message : String)
      → fn s ≡ (err (api conflict message), t)
      → Retried fn t r
      → Retried fn s r

abbrev pub IsRetry : RetryOnConflict → Type 1
IsRetry retry = (S : Type 0) (fn : Exec S (Unit {0})) (s : S) → Retried fn s (retry S fn s)

-- What every failed run keeps holds before the last run.
pub Retried-last :
    {S : Type 0} (P : S → Type 0) {fn : Exec S (Unit {0})}
    → ((s t : S) (e : Error) → P s → fn s ≡ (err e, t) → P t)
    → {s : S} {r : Result (Unit {0}) × S} → P s
    → Retried fn s r
    → (t : S) × P t × (fn t ≡ r)
Retried-last P keep {s} p (last e) = (s, p, e)
Retried-last P keep {s} p (again {t = t} m e more) =
    Retried-last P keep (keep s t (api conflict m) p e) more
