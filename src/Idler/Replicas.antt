-- ===== src/Idler/Replicas.antt =====
-- pkg/controllers/idler/deployment.go and statefulset.go. The two files hold the same code, once
-- for each type: it stands here once, over the client for the type, and is named for both below.
pub mod Guards
pub mod Laws
pub mod RoundTrip
pub mod Wraps
pub mod Progress
pub mod Contract
pub mod Live
pub mod Keeps
use kidle.Prelude.{String, Bool, true, false, Option, none, some, if◌then◌else◌}
use kidle.Prelude.Int.{ℤ, pos, to_int32, is_positive, is_zero}
use kidle.Pointer.{int32, differs_from_new}
use kidle.Exec.{Result, ok, err, panic, Exec, pure, ◌>>=◌, ◌>>◌}
use kidle.Strconv.{itoa, atoi}
use kidle.Meta.{ObjectMeta, add_annotation, get_annotation}
use kidle.Objects.{Workload, workload_object}
use kidle.Api.{IdlingResource, metadata_previous_replicas, metadata_expected_state}
use kidle.Cluster.{ObjectClient, Client}
use kidle.Cluster.Retry.{RetryOnConflict}
use kidle.Idler.{Idler}
use kidle.Idler.Change.{Local, change}
use kidle.Idler.Object.{set_reference, remove_annotations}

-- `NeedIdle`: `&&` reads the pointer only if the resource is to be idle.
unfoldable pub need_idle : IdlingResource → Workload → Result Bool
need_idle instance o =
    if instance.spec.idle
    then elim o.replicas [ none ↦ panic "nil pointer dereference" | some r ↦ ok (is_positive r) ]
    else ok false

-- `NeedWakeup`
unfoldable pub need_wakeup : IdlingResource → Workload → Result Bool
need_wakeup instance o =
    if instance.spec.idle
    then ok false
    else elim o.replicas [ none ↦ panic "nil pointer dereference" | some r ↦ ok (is_zero r) ]

-- What the closure of `Idle` does to the object.
abbrev pub scaled_down : Workload → ℤ → Workload
scaled_down o r = record {
  meta =
      add_annotation (add_annotation o.meta metadata_previous_replicas (itoa r))
        metadata_expected_state "0";
  replicas = some (pos 0);
}

unfoldable pub idled : Workload → Result Workload
idled o = elim o.replicas [ none ↦ panic "nil pointer dereference" | some r ↦ ok (scaled_down o r) ]

-- What the closure of `Wakeup` does to the object.
unfoldable pub scaled_up : ℤ → Workload → Result Workload
scaled_up previous o = ok (record {
  meta = add_annotation o.meta metadata_expected_state (itoa previous);
  replicas = some previous;
})

-- The count to which `Wakeup` scales: 1 where the annotation is missing.
unfoldable pub previous_replicas : Workload → Result ℤ
previous_replicas o = elim (get_annotation o.meta metadata_previous_replicas) [
  | none ↦ ok (pos 1)
  | some text ↦ elim (atoi text) [ ok v ↦ ok (to_int32 v) | err e ↦ err e | panic m ↦ panic m ]
]

module _ {W : Type 0} (c : ObjectClient W Workload) (retry : RetryOnConflict) where
  -- `Idle`
  unfoldable pub idle : Exec (Local W Workload) (Unit {0})
  idle s =
      if differs_from_new int32 s.object.replicas (pos 0)
      then change workload_object c retry idled s
      else (ok tt, s)

  scale_up : ℤ → Exec (Local W Workload) (Unit {0})
  scale_up previous s =
      if differs_from_new int32 s.object.replicas previous
      then change workload_object c retry (scaled_up previous) s
      else (ok tt, s)

  -- `Wakeup`
  unfoldable pub wakeup : Exec (Local W Workload) (Option ℤ)
  unfolding scale_up
  wakeup = do
    previous ← λ s. (previous_replicas s.object, s)
    scale_up previous
    pure (some previous)

  -- A `DeploymentIdler` or a `StatefulSetIdler` with the `ObjectIdler` that it embeds.
  abbrev pub replicas_idler : Idler W Workload
  replicas_idler = record {
    set_reference = set_reference workload_object c retry;
    remove_annotations = remove_annotations workload_object c retry;
    need_idle = need_idle;
    need_wakeup = need_wakeup;
    idle = idle;
    wakeup = wakeup;
  }

-- `NewDeploymentIdler`
abbrev pub new_deployment_idler : {W : Type 0} → Client W → RetryOnConflict → Idler W Workload
new_deployment_idler client retry = replicas_idler client.deployments retry

-- `NewStatefulSetIdler`
abbrev pub new_stateful_set_idler : {W : Type 0} → Client W → RetryOnConflict → Idler W Workload
new_stateful_set_idler client retry = replicas_idler client.stateful_sets retry
