-- ===== src/Idler/Replicas/Progress.antt =====
-- `Idle` and `Wakeup` of a Deployment or a StatefulSet under an API that answers.
use kidle.Prelude.{◌≡◌, refl, some, arith}
use kidle.Prelude.Int.{ℤ, pos}
use kidle.Exec.{Result, ok}
use kidle.Strconv.{itoa}
use kidle.Meta.{key_of, add_annotation}
use kidle.Objects.{Workload, workload_object}
use kidle.Api.{metadata_previous_replicas, metadata_expected_state}
use kidle.Cluster.{ObjectClient}
use kidle.Cluster.Retry.{RetryOnConflict, IsRetry}
use kidle.Idler.Change.{Local}
use kidle.Idler.Change.Progress.{change_returns}
use kidle.Idler.Replicas.Guards.{idle-change, wakeup-change}
use kidle.Idler.Replicas.{scaled_down, idled, scaled_up, previous_replicas, idle, wakeup}

-- The workload put to sleep: no replicas, its count saved, and 0 as the expected state.
abbrev pub at_rest : Workload → ℤ → Workload
at_rest o r = record {
  meta =
      add_annotation (add_annotation o.meta metadata_previous_replicas (itoa r))
        metadata_expected_state "0";
  replicas = some (pos 0);
}

-- The workload scaled up.
abbrev pub restored : Workload → ℤ → Workload
restored o count = record {
  meta = add_annotation o.meta metadata_expected_state (itoa count);
  replicas = some count;
}

pub idled-some : (o : Workload) (r : ℤ) → o.replicas ≡ some r → idled o ≡ ok (scaled_down o r)
unfolding idled
idled-some o r h = ground arith

module _ {W : Type 0} (c : ObjectClient W Workload) where
  -- The answer of the API to the read of the workload, and to a write after it.
  abbrev pub answer : Local W Workload → Result Workload × W
  answer s = c.get (key_of s.object.meta) s.cluster

  abbrev pub written : Local W Workload → Workload → Result (Unit {0}) × W
  written s n = c.update n (answer s).1

module _ {W : Type 0} (c : ObjectClient W Workload) {retry : RetryOnConflict}
    (retries : IsRetry retry) where
  -- Where the API answers the read with a workload that has a count and accepts the write, `Idle`
  -- returns with success, with the workload put to sleep in the idler, with no replicas, the count
  -- saved in an annotation and 0 as the expected state, and with the API in the state after the
  -- write.
  pub idle_returns :
      (s : Local W Workload) (o : Workload) (r : ℤ) (u : Unit {0})
      → (answer c s).0 ≡ ok o
      → o.replicas ≡ some r
      → (written c s (at_rest o r)).0 ≡ ok u
      → idle c retry s
        ≡ (ok u, record { object = at_rest o r; cluster = (written c s (at_rest o r)).1 })
  idle_returns s o r u got has stored = rw idle-change (
      change_returns workload_object c idled retries s o (at_rest o r) u got (idled-some o r has)
        stored)

  -- Where the saved count can be read, the API answers the read and accepts the write, `Wakeup`
  -- returns the count, with the workload scaled to it in the idler and the API in the state after
  -- the write.
  pub wakeup_returns :
      (s : Local W Workload) (o : Workload) (count : ℤ) (u : Unit {0})
      → previous_replicas s.object ≡ ok count
      → (answer c s).0 ≡ ok o
      → (written c s (restored o count)).0 ≡ ok u
      → wakeup c retry s ≡ (
        ok (some count),
        record { object = restored o count; cluster = (written c s (restored o count)).1 },
      )
  unfolding scaled_up
  wakeup_returns s o count u saved got stored =
      let run =
        change_returns workload_object c (scaled_up count) retries s o (restored o count) u got refl
          stored in
      rw wakeup-change (ground (arith, run))
