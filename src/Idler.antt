-- ===== src/Idler.antt =====
-- pkg/controllers/idler: the idlers of Deployments, StatefulSets and CronJobs.
pub mod Change
pub mod Object
pub mod Contract
pub mod Live
pub mod Replicas
pub mod CronJob
use kidle.Prelude.{String, Bool, Option}
use kidle.Prelude.Int.{ℤ}
use kidle.Exec.{Result, Exec}
use kidle.Api.{IdlingResource}
use Change.{Local}

-- The interface `Idler`, over the state of an idler: its copy of the object, and the cluster.
pub record Idler (W O : Type 0) : Type 0 where
  pub set_reference : String → Exec (Local W O) (Unit {0})
  pub remove_annotations : Exec (Local W O) (Unit {0})
  pub need_idle : IdlingResource → O → Result Bool
  pub need_wakeup : IdlingResource → O → Result Bool
  pub idle : Exec (Local W O) (Unit {0})
  pub wakeup : Exec (Local W O) (Option ℤ)
