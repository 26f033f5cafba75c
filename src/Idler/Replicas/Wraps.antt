-- ===== src/Idler/Replicas/Wraps.antt =====
-- `Wakeup` of a Deployment or a StatefulSet whose saved count is any number that `Atoi` reads, also one
-- beyond the range of an int32.
use kidle.Prelude.{ℕ, String, ◌≡◌, refl, ap, ◌∙◌, ◌-◌, ◌%◌, ◌^◌, Option, some, arith}
use kidle.Prelude.Int.{ℤ, pos, negsuc, IsInt32, to_int32, to_int32-IsInt32}
use kidle.Exec.{ok}
use kidle.Strconv.{atoi}
use kidle.Meta.{get_annotation}
use kidle.Objects.{Workload, workload_object}
use kidle.Api.{metadata_previous_replicas}
use kidle.Cluster.{Cluster, ObjectClient, Slot, IsLawful}
use kidle.Cluster.Retry.{RetryOnConflict, IsRetry}
use kidle.Idler.Change.{Local}
use kidle.Idler.Change.Updated.{IsCurrent, Updated}
use kidle.Idler.Replicas.{previous_replicas, wakeup}
use kidle.Idler.Replicas.Laws.{wakeup-ok}

-- The remainder on division by 2^32, from 0 to 2^32 - 1 also for a negative number.
abbrev pub residue : ℤ → ℕ
residue (pos n) = n % 2 ^ 32
residue (negsuc n) = 2 ^ 32 - 1 - n % 2 ^ 32

residue-to_int32 : (v : ℤ) → residue (to_int32 v) ≡ residue v
unfolding to_int32
residue-to_int32 (pos n) = ground arith
residue-to_int32 (negsuc n) = ground arith

previous_replicas_read :
    (o : Workload) (text : String) (v : ℤ)
    → get_annotation o.meta metadata_previous_replicas ≡ some text
    → atoi text ≡ ok v
    → previous_replicas o ≡ ok (to_int32 v)
unfolding previous_replicas
previous_replicas_read o text v saved read = rw (saved, previous_replicas) (rw read refl)

module _ {W : Type 0} {view : W → Cluster} {slot : Slot Workload} {c : ObjectClient W Workload}
    (law : IsLawful view slot workload_object c) {retry : RetryOnConflict}
    (retries : IsRetry retry) where
  -- A `Wakeup` that succeeds, of a workload whose saved count is a text that `Atoi` reads as `v`,
  -- stores the int32 that is `v` modulo 2^32 as the number of replicas and returns it, without an
  -- error where `v` is beyond the range. It changes no other object.
  pub wakeup_wraps :
      (s t : Local W Workload) (p : Option ℤ) (text : String) (v : ℤ)
      → IsCurrent view slot workload_object s
      → get_annotation s.object.meta metadata_previous_replicas ≡ some text
      → atoi text ≡ ok v
      → wakeup c retry s ≡ (ok p, t)
      → Updated view slot workload_object s t
        × (count : ℤ) × (t.object.replicas ≡ some count)
        × (p ≡ some count)
        × IsInt32 count
        × (residue count ≡ residue v)
  wakeup_wraps s t p text v current saved read e =
      let (updated, found, computed, returned, scaled) = wakeup-ok law retries s t p current e in
      let same : found ≡ to_int32 v =
        cc (computed, previous_replicas_read s.object text v saved read) in
      (
        updated,
        to_int32 v,
        scaled.scaled ∙ ap some same,
        returned ∙ ap some same,
        to_int32-IsInt32 v,
        residue-to_int32 v,
      )
