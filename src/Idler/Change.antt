-- ===== src/Idler/Change.antt =====
-- The closure that every idler method hands to `retry.RetryOnConflict`: `Get` of the object,
-- a change of it in place, and `Update`. An idler's `Object`, `RuntimeObject` and `Deployment`
-- (`StatefulSet`, `CronJob`) are pointers to one object: it is `object` of the state.
pub mod Laws
pub mod Updated
pub mod Progress
pub mod Live
use kidle.Prelude.{Bool}
use kidle.Exec.{Error, Result, ok, err, panic, Exec, ◌>>=◌, ◌>>◌}
use kidle.Meta.{ObjectMeta, key_of, MetaObject}
use kidle.Cluster.{ObjectClient}
use kidle.Cluster.Retry.{RetryOnConflict}

pub record Local (W O : Type 0) : Type 0 where
  pub object : O
  pub cluster : W

module _ {W O : Type 0} where
  -- A call of the client that leaves the object alone.
  abbrev pub remotely : Local W O → Result (Unit {0}) × W → Result (Unit {0}) × Local W O
  remotely s (r, w) = (r, record s { cluster = w })

  abbrev pub fetched : Local W O → Result O × W → Result (Unit {0}) × Local W O
  fetched s (ok o, w) = (ok tt, record { object = o; cluster = w })
  fetched s (err e, w) = (err e, record s { cluster = w })
  fetched s (panic m, w) = (panic m, record s { cluster = w })

  abbrev pub edited : Local W O → Result O → Result (Unit {0}) × Local W O
  edited s (ok o) = (ok tt, record s { object = o })
  edited s (err e) = (err e, s)
  edited s (panic m) = (panic m, s)

module _ {W O : Type 0} (object : MetaObject O) (c : ObjectClient W O) where
  refresh : Exec (Local W O) (Unit {0})
  refresh s = fetched s (c.get (key_of (object.meta s.object)) s.cluster)

  push : Exec (Local W O) (Unit {0})
  push s = remotely s (c.update s.object s.cluster)

  attempt : (O → Result O) → Exec (Local W O) (Unit {0})
  unfolding refresh push
  attempt f = do refresh; (λ s. edited s (f s.object)); push

  unfoldable pub change : RetryOnConflict → (O → Result O) → Exec (Local W O) (Unit {0})
  unfolding attempt
  change retry f = retry (Local W O) (attempt f)
