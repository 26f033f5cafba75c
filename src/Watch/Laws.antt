-- ===== src/Watch/Laws.antt =====
-- Which updates pass the event filter, those that the idlers make and others.
use kidle.Prelude.{
  String, ◌≡◌, ◌≢◌, ◌↔◌, refl, ap, sym, ◌∙◌, Bool, true, false, some, arith, eq_iff, eq_refl,
}
use kidle.Prelude.Int.{ℤ, pos, IsInt32}
use kidle.Exec.{ok}
use kidle.Strconv.{itoa, format_bool}
use kidle.Strconv.RoundTrip.{itoa-injective}
use kidle.Meta.{get_annotation}
use kidle.Objects.{Workload, CronJob}
use kidle.Api.{metadata_idling_resource_reference, metadata_expected_state}
use kidle.Idler.Replicas.Laws.{IsIdled, IsScaledTo}
use kidle.Idler.CronJob.Laws.{IsSwitched}
use kidle.Watch.{deployment, stateful_set, cron_job, update}

itoa_zero : itoa (pos 0) ≡ "0"
unfolding itoa
itoa_zero = refl

update_expected :
    (old n : Workload) (count : ℤ)
    → n.replicas ≡ some count
    → get_annotation n.meta metadata_expected_state ≡ some (itoa count)
    → (update (deployment old) (deployment n) ≡ ok false)
      × (update (stateful_set old) (stateful_set n) ≡ ok false)
unfolding update
update_expected old n count has expected = ground (arith, eq_refl (itoa count))

module _ (old o n : Workload) where
  -- The update by which the operator idles a Deployment or a StatefulSet is filtered out.
  pub update-IsIdled :
      IsIdled o n
      → (update (deployment old) (deployment n) ≡ ok false)
        × (update (stateful_set old) (stateful_set n) ≡ ok false)
  update-IsIdled h =
      update_expected old n (pos 0) h.empty
        (h.annotated metadata_expected_state ∙ ap some (sym itoa_zero))

  -- The update by which the operator scales a Deployment or a StatefulSet up is filtered out.
  pub update-IsScaledTo :
      (count : ℤ)
      → IsScaledTo count o n
      → (update (deployment old) (deployment n) ≡ ok false)
        × (update (stateful_set old) (stateful_set n) ≡ ok false)
  update-IsScaledTo count h =
      update_expected old n count h.scaled (h.annotated metadata_expected_state)

-- Of a referenced workload with an expected state, an update passes the filter exactly when its
-- replicas are not the expected ones.
pub update_iff :
    (old new : Workload) (reference : String) (count expected : ℤ)
    → get_annotation old.meta metadata_idling_resource_reference ≡ some reference
    → get_annotation new.meta metadata_expected_state ≡ some (itoa expected)
    → new.replicas ≡ some count
    → IsInt32 count
    → IsInt32 expected
    → (update (deployment old) (deployment new) ≡ ok true) ↔ (count ≢ expected)
unfolding update
update_iff old new reference count expected referenced annotated has fits fits' =
    ground (arith, itoa-injective count expected fits fits', eq_iff (itoa count) (itoa expected))

-- The update by which the operator suspends or resumes a CronJob is filtered out.
pub update-IsSwitched :
    (old o n : CronJob) (b : Bool)
    → IsSwitched b o n
    → update (cron_job old) (cron_job n) ≡ ok false
unfolding update
update-IsSwitched old o n b h = ground (
  arith,
  eq_refl (format_bool b),
  h.annotated metadata_expected_state,
  ap (λ (c : CronJob). c.suspend) h.body,
)
