-- ===== src/Tests/Loop.antt =====
-- Runs of the reconcile loop on the server in memory, for the Deployment `web`.
use kidle.Prelude.{some, inl, arith, ◌≡◌, refl, true, false, []}
use kidle.Prelude.Int.{pos, to_int32}
use kidle.Exec.{ok}
use kidle.Objects.{Workload, workload_object}
use kidle.Meta.{add_annotation, has_annotation, get_annotation, remove_annotation}
use kidle.Api.{IdlingResource, idling_resource_finalizer_name, is_being_deleted, has_finalizer}
use kidle.Array.{contains_string, remove_string}
use kidle.Cluster.{deployment_slot}
use kidle.Idler.Change.{change}
use kidle.Idler.Object.{set_reference, remove_annotations, referenced, cleaned, without_annotations}
use kidle.Idler.Replicas.{
  need_idle, need_wakeup, idled, scaled_up, previous_replicas, idle, wakeup, new_deployment_idler,
}
use kidle.Idler.Replicas.Contract.{Awake, replicas_idler-IsIdler}
use kidle.Strconv.{itoa, atoi}
use kidle.Controller.State.{finished, World, Run}
use kidle.Controller.Finalizer.{remove_finalizer}
use kidle.Controller.WithIdler.{reconcile_with_idler}
use kidle.Controller.WithIdler.Outcomes.{Followed, reconcile_with_idler-Followed}
use kidle.Controller.WithIdler.Deletion.{Released, reconcile_with_idler-Released}
use kidle.Controller.Reconcile.{workload_key, reconcile_workload}
use kidle.Idler.Replicas.Live.{replicas_idler-IsLive}
use kidle.Controller.Reconcile.Kept.{Touched, reconcile_workload-Kept}
use kidle.Idler.Replicas.Keeps.{Keeps, replicas_idler-Preserves}
use kidle.Controller.WithIdler.Stable.{reconcile_with_idler_again}
use kidle.Controller.WithIdler.Live.{reconcile_with_idler_returns}
use kidle.Pointer.{new_variable, same_pointer, differs_from_new}
use kidle.Tests.Memory.{
  deployments-IsResponsive, Memory, view, client, deployments-IsLawful, idling_resources-IsLawful,
}
use kidle.Tests.Libraries.{five_attempts, five_attempts-IsRetry, libraries, libraries-IsDocumented}
use kidle.Tests.Data.{web, server, resource, deleted, loop_run}

abbrev night : IdlingResource
night = resource "Deployment" "web" true

abbrev followed_run : Run Memory Workload
followed_run =
    (reconcile_with_idler client libraries (new_deployment_idler client five_attempts) night
      loop_run).1

lives : is_being_deleted night ≡ false
unfolding is_being_deleted
lives = refl

follows :
    reconcile_with_idler client libraries (new_deployment_idler client five_attempts) night loop_run
    ≡ (ok finished, followed_run)
unfolding reconcile_with_idler is_being_deleted set_reference change referenced has_annotation
    add_annotation need_wakeup need_idle idle idled itoa differs_from_new same_pointer new_variable
follows = refl

reconcile_with_idler-Followed_example :
    Followed client libraries
      (replicas_idler-IsIdler deployments-IsLawful five_attempts-IsRetry)
      night
      loop_run
      followed_run
reconcile_with_idler-Followed_example =
    reconcile_with_idler-Followed client libraries
      (replicas_idler-IsIdler deployments-IsLawful five_attempts-IsRetry) night loop_run
      followed_run finished lives refl follows

abbrev released_run : Run Memory Workload
released_run =
    (reconcile_with_idler client libraries (new_deployment_idler client five_attempts)
      (deleted night) loop_run).1

is_deleted : is_being_deleted (deleted night) ≡ true
unfolding is_being_deleted
is_deleted = refl

has_ours : has_finalizer (deleted night) idling_resource_finalizer_name ≡ true
unfolding has_finalizer contains_string
has_ours = refl

releases :
    reconcile_with_idler client libraries
      (new_deployment_idler client five_attempts)
      (deleted night)
      loop_run
    ≡ (ok finished, released_run)
unfolding reconcile_with_idler is_being_deleted set_reference change referenced has_annotation
    add_annotation get_annotation previous_replicas wakeup scaled_up itoa atoi to_int32
    remove_annotations cleaned without_annotations remove_annotation remove_finalizer
    contains_string remove_string differs_from_new same_pointer new_variable
releases = refl

reconcile_with_idler-Released_example :
    Released view deployment_slot workload_object Awake (deleted night) loop_run released_run
reconcile_with_idler-Released_example =
    reconcile_with_idler-Released client libraries
      (replicas_idler-IsIdler deployments-IsLawful five_attempts-IsRetry) idling_resources-IsLawful
      libraries-IsDocumented (deleted night) loop_run released_run finished is_deleted has_ours refl
      releases

abbrev quiet : World Memory
quiet = record { cluster = record server { conflicts = 0 }; events = [] }

abbrev quiet_after : World Memory
quiet_after =
    (reconcile_workload client libraries client.deployments
      (new_deployment_idler client five_attempts) night quiet).1

-- The Deployment that is stored has three replicas.
web_Keeps :
    (o : Workload)
    → deployment_slot.read (view quiet.cluster) (workload_key night) ≡ some o
    → Keeps (pos 3) o
web_Keeps o there = let same : web ≡ o = cc (there) in rw (← same) (inl refl)

reconcile_workload-Kept_example :
    Touched deployment_slot
      (Keeps (pos 3))
      (workload_key night)
      (view quiet.cluster)
      (view quiet_after.cluster)
reconcile_workload-Kept_example =
    reconcile_workload-Kept client libraries deployments-IsLawful
      (replicas_idler-IsIdler deployments-IsLawful five_attempts-IsRetry)
      (replicas_idler-Preserves deployments-IsLawful five_attempts-IsRetry (pos 3) (omega arith)
        refl)
      night quiet lives web_Keeps

reconcile_with_idler_again_example :
    reconcile_with_idler client libraries
      (new_deployment_idler client five_attempts)
      night
      followed_run
    ≡ (ok finished, followed_run)
reconcile_with_idler_again_example =
    reconcile_with_idler_again client libraries
      (replicas_idler-IsIdler deployments-IsLawful five_attempts-IsRetry) night loop_run
      followed_run finished lives refl refl follows

abbrev quiet_loop : Run Memory Workload
quiet_loop = record { object = web; world = quiet }

reads_one : previous_replicas web ≡ ok (pos 1)
unfolding previous_replicas get_annotation
reads_one = refl

reconcile_with_idler_returns_example :
    (after : Run Memory Workload) × (reconcile_with_idler client libraries
        (new_deployment_idler client five_attempts)
        night
        quiet_loop
      ≡ (ok finished, after))
    × Followed client libraries
        (replicas_idler-IsIdler deployments-IsLawful five_attempts-IsRetry)
        night
        quiet_loop
        after
reconcile_with_idler_returns_example =
    reconcile_with_idler_returns client libraries
      (replicas_idler-IsIdler deployments-IsLawful five_attempts-IsRetry)
      (replicas_idler-IsLive deployments-IsLawful deployments-IsResponsive five_attempts-IsRetry)
      night quiet_loop lives refl refl (pos 3, pos 1, refl, reads_one)
