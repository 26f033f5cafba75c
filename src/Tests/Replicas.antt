-- ===== src/Tests/Replicas.antt =====
-- The idler of Deployments on the server in memory.
use kidle.Prelude.{[], ◌∷◌, ◌+◌, ◌^◌, ◌≡◌, refl, arith, some, none, false}
use kidle.Prelude.Int.{ℤ, pos, IsInt32, to_int32}
use kidle.Exec.{ok}
use kidle.Objects.{Workload, workload_object}
use kidle.Meta.{key_of, get_annotation, add_annotation}
use kidle.Api.{metadata_previous_replicas}
use kidle.Cluster.{put, deployment_slot}
use kidle.Idler.Change.{Local, change}
use kidle.Idler.Change.Updated.{Updated, IsCurrent}
use kidle.Idler.Contract.{IsIdler}
use kidle.Idler.Replicas.{idled, scaled_up, previous_replicas, idle, wakeup, replicas_idler}
use kidle.Idler.Replicas.Laws.{IsIdled, IsScaledTo, idle-ok, wakeup-ok}
use kidle.Idler.Replicas.RoundTrip.{wakeup-idle, idle_twice_forgets, wakeup_without_idle}
use kidle.Idler.Replicas.Wraps.{residue, wakeup_wraps}
use kidle.Idler.Replicas.Progress.{at_rest, restored, answer, written, idle_returns, wakeup_returns}
use kidle.Idler.Replicas.Contract.{Asleep, Awake, replicas_idler-IsIdler}
use kidle.Strconv.{itoa, atoi}
use kidle.Watch.{deployment, stateful_set, update}
use kidle.Watch.Laws.{update-IsIdled, update-IsScaledTo}
use kidle.Pointer.{new_variable, same_pointer, differs_from_new}
use kidle.Tests.Memory.{Memory, view, client, deployments-IsLawful}
use kidle.Tests.Libraries.{five_attempts, five_attempts-IsRetry}
use kidle.Tests.Data.{named, web, server, web_run}

abbrev asleep_run : Local Memory Workload
asleep_run = (idle client.deployments five_attempts web_run).1

abbrev awake_run : Local Memory Workload
awake_run = (wakeup client.deployments five_attempts asleep_run).1

web_idles : idle client.deployments five_attempts web_run ≡ (ok tt, asleep_run)
unfolding idle change idled add_annotation itoa differs_from_new same_pointer new_variable
web_idles = refl

web_wakes : wakeup client.deployments five_attempts asleep_run ≡ (ok (some (pos 3)), awake_run)
unfolding idle wakeup change idled scaled_up previous_replicas add_annotation get_annotation itoa
    atoi to_int32 differs_from_new same_pointer new_variable
web_wakes = refl

asleep_run-IsCurrent : IsCurrent view deployment_slot workload_object asleep_run
unfolding idle change idled add_annotation itoa differs_from_new same_pointer new_variable
asleep_run-IsCurrent = refl

idle-ok_example :
    Updated view deployment_slot workload_object web_run asleep_run × IsIdled web asleep_run.object
idle-ok_example =
    idle-ok deployments-IsLawful five_attempts-IsRetry web_run asleep_run tt refl web_idles

wakeup-idle_example :
    Updated view deployment_slot workload_object web_run awake_run
    × (awake_run.object.replicas ≡ some (pos 3))
    × (some (pos 3) ≡ some (pos 3))
wakeup-idle_example =
    wakeup-idle deployments-IsLawful five_attempts-IsRetry web_run asleep_run asleep_run awake_run
      (pos 3) tt (some (pos 3)) refl refl (omega arith) web_idles refl refl web_wakes

wakeup-ok_example :
    Updated view deployment_slot workload_object asleep_run awake_run
    × (count : ℤ) × (previous_replicas asleep_run.object ≡ ok count)
    × (some (pos 3) ≡ some count)
    × IsScaledTo count asleep_run.object awake_run.object
wakeup-ok_example =
    wakeup-ok deployments-IsLawful five_attempts-IsRetry asleep_run awake_run (some (pos 3))
      asleep_run-IsCurrent web_wakes

abbrev asleep_again : Local Memory Workload
asleep_again = (idle client.deployments five_attempts asleep_run).1

abbrev woken_to_zero : Local Memory Workload
woken_to_zero = (wakeup client.deployments five_attempts asleep_again).1

idles_again : idle client.deployments five_attempts asleep_run ≡ (ok tt, asleep_again)
unfolding idle change idled add_annotation itoa differs_from_new same_pointer new_variable
idles_again = refl

wakes_to_zero :
    wakeup client.deployments five_attempts asleep_again ≡ (ok (some (pos 0)), woken_to_zero)
unfolding idle wakeup change idled scaled_up previous_replicas add_annotation get_annotation itoa
    atoi to_int32 differs_from_new same_pointer new_variable
wakes_to_zero = refl

idle_twice_forgets_example :
    (woken_to_zero.object.replicas ≡ some (pos 0)) × (some (pos 0) ≡ some (pos 0))
idle_twice_forgets_example =
    idle_twice_forgets deployments-IsLawful five_attempts-IsRetry web_run asleep_run asleep_again
      woken_to_zero tt tt (some (pos 0)) refl web_idles idles_again wakes_to_zero

abbrev scaled_to_one : Local Memory Workload
scaled_to_one = (wakeup client.deployments five_attempts web_run).1

scales_to_one : wakeup client.deployments five_attempts web_run ≡ (ok (some (pos 1)), scaled_to_one)
unfolding wakeup change scaled_up previous_replicas add_annotation get_annotation itoa
    differs_from_new same_pointer new_variable
scales_to_one = refl

never_idled : get_annotation web.meta metadata_previous_replicas ≡ none
unfolding get_annotation
never_idled = refl

wakeup_without_idle_example :
    Updated view deployment_slot workload_object web_run scaled_to_one
    × (scaled_to_one.object.replicas ≡ some (pos 1))
wakeup_without_idle_example =
    wakeup_without_idle deployments-IsLawful five_attempts-IsRetry web_run scaled_to_one
      (some (pos 1)) refl never_idled scales_to_one

replicas_idler-IsIdler_example :
    IsIdler view deployment_slot workload_object
      (replicas_idler client.deployments five_attempts)
      Asleep
      Awake
replicas_idler-IsIdler_example = replicas_idler-IsIdler deployments-IsLawful five_attempts-IsRetry

web-IsIdled : IsIdled web asleep_run.object
web-IsIdled =
    (idle-ok deployments-IsLawful five_attempts-IsRetry web_run asleep_run tt refl web_idles).1

update-IsIdled_example :
    (update (deployment web) (deployment asleep_run.object) ≡ ok false)
    × (update (stateful_set web) (stateful_set asleep_run.object) ≡ ok false)
update-IsIdled_example = update-IsIdled web web asleep_run.object web-IsIdled

web-IsScaledTo : (count : ℤ) × IsScaledTo count asleep_run.object awake_run.object
web-IsScaledTo =
    let (_, count, _, _, scaled) =
      wakeup-ok deployments-IsLawful five_attempts-IsRetry asleep_run awake_run (some (pos 3))
        asleep_run-IsCurrent web_wakes in
    (count, scaled)

update-IsScaledTo_example :
    (update (deployment asleep_run.object) (deployment awake_run.object) ≡ ok false)
    × (update (stateful_set asleep_run.object) (stateful_set awake_run.object) ≡ ok false)
update-IsScaledTo_example =
    update-IsScaledTo asleep_run.object asleep_run.object awake_run.object web-IsScaledTo.0
      web-IsScaledTo.1

-- The write of `quiet_run` meets no conflict.
abbrev quiet_run : Local Memory Workload
quiet_run = record web_run { cluster = record server { conflicts = 0 } }

abbrev quiet_asleep : Local Memory Workload
quiet_asleep = record {
  object = at_rest web (pos 3);
  cluster = (written client.deployments quiet_run (at_rest web (pos 3))).1;
}

quiet_first : (written client.deployments quiet_run (at_rest web (pos 3))).0 ≡ ok tt
unfolding add_annotation
quiet_first = refl

quiet_answer : (answer client.deployments quiet_asleep).0 ≡ ok quiet_asleep.object
unfolding add_annotation
quiet_answer = refl

quiet_write :
    (written client.deployments quiet_asleep (restored quiet_asleep.object (pos 3))).0 ≡ ok tt
unfolding add_annotation
quiet_write = refl

quiet_saved : previous_replicas quiet_asleep.object ≡ ok (pos 3)
unfolding previous_replicas add_annotation get_annotation itoa atoi to_int32
quiet_saved = refl

idle_returns_example : idle client.deployments five_attempts quiet_run ≡ (ok tt, quiet_asleep)
idle_returns_example =
    idle_returns client.deployments five_attempts-IsRetry quiet_run web (pos 3) tt refl refl
      quiet_first

wakeup_returns_example : wakeup client.deployments five_attempts quiet_asleep ≡ (
  ok (some (pos 3)),
  record {
    object = restored quiet_asleep.object (pos 3);
    cluster = (written client.deployments quiet_asleep (restored quiet_asleep.object (pos 3))).1;
  },
)
wakeup_returns_example =
    wakeup_returns client.deployments five_attempts-IsRetry quiet_asleep quiet_asleep.object (pos 3)
      tt quiet_saved quiet_answer quiet_write

-- A saved count beyond the range: 2^32 + 5.
abbrev vast : Workload
vast = record {
  meta = record (named "web") {
    annotations = some ((metadata_previous_replicas, "4294967301") ∷ []);
  };
  replicas = some (pos 0);
}

abbrev vast_run : Local Memory Workload
vast_run = record {
  object = vast;
  cluster = record {
    stored = record (server.stored) {
      deployments = put (key_of vast.meta) (some vast) (λ k. none);
    };
    conflicts = 1;
  };
}

abbrev vast_awake : Local Memory Workload
vast_awake = (wakeup client.deployments five_attempts vast_run).1

vast_wakes : wakeup client.deployments five_attempts vast_run ≡ (ok (some (pos 5)), vast_awake)
unfolding wakeup change scaled_up previous_replicas add_annotation get_annotation itoa atoi to_int32
    differs_from_new same_pointer new_variable
vast_wakes = refl

vast_saved : get_annotation vast.meta metadata_previous_replicas ≡ some "4294967301"
unfolding get_annotation
vast_saved = refl

vast_read : atoi "4294967301" ≡ ok (pos (2 ^ 32 + 5))
unfolding atoi
vast_read = refl

wakeup_wraps_example :
    Updated view deployment_slot workload_object vast_run vast_awake
    × (count : ℤ) × (vast_awake.object.replicas ≡ some count)
    × (some (pos 5) ≡ some count)
    × IsInt32 count
    × (residue count ≡ residue (pos (2 ^ 32 + 5)))
wakeup_wraps_example =
    wakeup_wraps deployments-IsLawful five_attempts-IsRetry vast_run vast_awake (some (pos 5))
      "4294967301" (pos (2 ^ 32 + 5)) refl vast_saved vast_read vast_wakes
