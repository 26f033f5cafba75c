-- ===== src/Idler/Change/Progress.antt =====
-- A change under an API that answers.
use kidle.Prelude.{◌≡◌, sym, ◌∙◌, arith}
use kidle.Exec.{Result, ok, Exec}
use kidle.Meta.{key_of, MetaObject}
use kidle.Cluster.{ObjectClient}
use kidle.Cluster.Retry.{RetryOnConflict, IsRetry, Retried, last, again}
use kidle.Idler.Change.{Local, attempt, change}

Retried-returns :
    {S : Type 0} {fn : Exec S (Unit {0})} {s t : S} {r : Result (Unit {0}) × S} (u : Unit {0})
    → fn s ≡ (ok u, t)
    → Retried fn s r
    → r ≡ (ok u, t)
Retried-returns u e (last same) = sym same ∙ e
Retried-returns u e (again m failed more) = absurd (cc)

module _ {W O : Type 0} (object : MetaObject O) (c : ObjectClient W O) (f : O → Result O) where
  attempt_returns :
      (s : Local W O) (o n : O) (u : Unit {0})
      → (c.get (key_of (object.meta s.object)) s.cluster).0 ≡ ok o
      → f o ≡ ok n
      → (c.update n (c.get (key_of (object.meta s.object)) s.cluster).1).0 ≡ ok u
      → attempt object c f s ≡ (
        ok u,
        record {
          object = n;
          cluster = (c.update n (c.get (key_of (object.meta s.object)) s.cluster).1).1;
        },
      )
  unfolding attempt
  attempt_returns s o n u got made stored = ground arith

  -- Where the read, the edit and the write succeed, the change returns with the edited object.
  pub change_returns :
      {retry : RetryOnConflict} (retries : IsRetry retry) (s : Local W O) (o n : O) (u : Unit {0})
      → (c.get (key_of (object.meta s.object)) s.cluster).0 ≡ ok o
      → f o ≡ ok n
      → (c.update n (c.get (key_of (object.meta s.object)) s.cluster).1).0 ≡ ok u
      → change object c retry f s ≡ (
        ok u,
        record {
          object = n;
          cluster = (c.update n (c.get (key_of (object.meta s.object)) s.cluster).1).1;
        },
      )
  unfolding change
  change_returns retries s o n u got made stored =
      Retried-returns u (attempt_returns s o n u got made stored)
        (retries (Local W O) (attempt object c f) s)
