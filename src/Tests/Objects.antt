-- ===== src/Tests/Objects.antt =====
-- The read, edit and write of every idler on the server in memory, for the Deployment `web`.
use kidle.Prelude.{◌≡◌, refl, arith}
use kidle.Exec.{ok}
use kidle.Objects.{Workload, workload_object}
use kidle.Meta.{key_of, add_annotation}
use kidle.Cluster.{is_gone, deployment_slot}
use kidle.Idler.Change.{Local, change}
use kidle.Idler.Change.Laws.{Changed, change-ok}
use kidle.Idler.Replicas.{idled}
use kidle.Strconv.{itoa}
use kidle.Tests.Memory.{Memory, view, client, deployments-IsLawful}
use kidle.Tests.Libraries.{five_attempts, five_attempts-IsRetry}
use kidle.Tests.Data.{web_run}

idled_keeps_key : (o n : Workload) → idled o ≡ ok n → key_of n.meta ≡ key_of o.meta
unfolding idled add_annotation
idled_keeps_key o n e = ground arith

idled_keeps_life : (o n : Workload) → idled o ≡ ok n → is_gone n.meta ≡ is_gone o.meta
unfolding idled add_annotation
idled_keeps_life o n e = ground arith

abbrev changed_run : Local Memory Workload
changed_run = (change workload_object client.deployments five_attempts idled web_run).1

changes :
    change workload_object client.deployments five_attempts idled web_run ≡ (ok tt, changed_run)
unfolding change idled add_annotation itoa
changes = refl

change-ok_example :
    Changed view deployment_slot workload_object client.deployments deployments-IsLawful idled
      web_run changed_run
change-ok_example =
    change-ok view deployment_slot workload_object client.deployments deployments-IsLawful idled
      idled_keeps_key idled_keeps_life five_attempts-IsRetry web_run changed_run tt changes
