-- ===== src/Controller/CronStrategies/Laws.antt =====
-- The contents of the CronJobs that the code makes and updates.
use kidle.Prelude.{String, ◌≡◌, refl, Bool, true, false, some, [], ◌∷◌, arith}
use kidle.Exec.{Result, ok, err, panic}
use kidle.Pointer.Laws.{differs_from_new-bool}
use kidle.Objects.{Container, CronJob}
use kidle.Containers.Laws.{distinct_names, containers_to_map-set_container, name-containers_to_map}
use kidle.Containers.{containers_to_map, set_container}
use kidle.Meta.{Key}
use kidle.Controller.CronStrategies.Values.{
  Settings, CronJobValues, cron_job_container_name, new_cron_job, get_sa_name,
  cron_job_need_changes, set_cron_job_values,
}

need_changes_always_at :
    (settings : Settings) (cron_job : CronJob) (v : CronJobValues) (b : Bool) (name : Result String)
    → get_sa_name v.instance_name ≡ name
    → cron_job_need_changes settings cron_job v ≡ ok b
    → b ≡ true
unfolding cron_job_need_changes
need_changes_always_at settings cron_job v b name g e =
    ground (arith, differs_from_new-bool cron_job.suspend false)

-- `cronJobNeedChanges` answers true for every CronJob, whatever its contents, since it compares a
-- pointer with a new one.
pub cron_job_need_changes_always :
    (settings : Settings) (cron_job : CronJob) (v : CronJobValues) (b : Bool)
    → cron_job_need_changes settings cron_job v ≡ ok b
    → b ≡ true
cron_job_need_changes_always settings cron_job v b =
    need_changes_always_at settings cron_job v b (get_sa_name v.instance_name) refl

-- `n` runs kidlectl with the command and the name of the instance, on the schedule.
pub record IsScheduled (settings : Settings) (v : CronJobValues) (n : CronJob) : Type 0 where
  pub account : get_sa_name v.instance_name ≡ ok n.service_account_name
  pub runs : n.suspend ≡ some false
  pub scheduled : n.schedule ≡ v.strategy.schedule
  pub container :
      containers_to_map n.containers cron_job_container_name
      ≡ some (record {
        name = cron_job_container_name;
        image = settings.kidlectl_image;
        args = v.command ∷ v.instance_name ∷ [];
      })

-- The new CronJob with the values.
abbrev scheduled : Settings → CronJobValues → String → CronJob
scheduled settings v sa = record (new_cron_job v.key) {
  service_account_name = sa;
  suspend = some false;
  schedule = v.strategy.schedule;
  containers =
      record {
        name = cron_job_container_name;
        image = settings.kidlectl_image;
        args = v.command ∷ v.instance_name ∷ [];
      }
      ∷ [];
}

set_cron_job_values-IsScheduled_at :
    (settings : Settings) (v : CronJobValues) (n : CronJob) (name : Result String)
    → get_sa_name v.instance_name ≡ name
    → set_cron_job_values settings (new_cron_job v.key) v ≡ ok n
    → IsScheduled settings v n
unfolding set_cron_job_values set_container containers_to_map
set_cron_job_values-IsScheduled_at settings v n (ok sa) g e =
    let made : set_cron_job_values settings (new_cron_job v.key) v ≡ ok (scheduled settings v sa) =
      rw (set_cron_job_values, g) refl in
    let same : scheduled settings v sa ≡ n = cc (made, e) in
    rw (← same) (record { account = g; runs = refl; scheduled = refl; container = refl })
set_cron_job_values-IsScheduled_at settings v n (err m) g e = ground arith
set_cron_job_values-IsScheduled_at settings v n (panic m) g e = ground arith

-- What `setCronjobValues` makes of a new CronJob runs kidlectl with the command and the name of the
-- instance, on the schedule of the strategy.
pub set_cron_job_values-IsScheduled :
    (settings : Settings) (v : CronJobValues) (n : CronJob)
    → set_cron_job_values settings (new_cron_job v.key) v ≡ ok n
    → IsScheduled settings v n
set_cron_job_values-IsScheduled settings v n =
    set_cron_job_values-IsScheduled_at settings v n (get_sa_name v.instance_name) refl

-- The container that kidlectl runs in is there, and no other one has its name.
abbrev pub HasKidlectl : CronJob → Type 0
HasKidlectl o =
    (distinct_names o.containers ≡ true)
    × (c : Container) × (containers_to_map o.containers cron_job_container_name ≡ some c)

set_values_at :
    (settings : Settings) (o n : CronJob) (v : CronJobValues) (name : Result String)
    → get_sa_name v.instance_name ≡ name
    → HasKidlectl o
    → set_cron_job_values settings o v ≡ ok n
    → IsScheduled settings v n × (n.meta ≡ o.meta)
unfolding set_cron_job_values
set_values_at settings o n v (ok sa) g (distinct, c, there) e =
    let made : Container = record c {
      image = settings.kidlectl_image;
      args = v.command ∷ v.instance_name ∷ [];
    } in
    let named : c.name ≡ cron_job_container_name =
      name-containers_to_map o.containers cron_job_container_name c there in
    let whole : Container = record {
      name = cron_job_container_name;
      image = settings.kidlectl_image;
      args = v.command ∷ v.instance_name ∷ [];
    } in
    let same_container : made ≡ whole = rw named refl in
    let next : CronJob = record o {
      service_account_name = sa;
      suspend = some false;
      schedule = v.strategy.schedule;
      containers = set_container o.containers whole;
    } in
    let result : set_cron_job_values settings o v ≡ ok next =
      rw (set_cron_job_values, g, there, named) refl in
    let same : next ≡ n = cc (result, e) in
    rw (← same) (
      record {
        account = g;
        runs = refl;
        scheduled = refl;
        container = containers_to_map-set_container o.containers whole c distinct there;
      },
      refl,
    )
set_values_at settings o n v (err m) g has e = ground arith
set_values_at settings o n v (panic m) g has e = ground arith

-- The same of a CronJob that is there already.
pub set_cron_job_values-HasKidlectl :
    (settings : Settings) (o n : CronJob) (v : CronJobValues)
    → HasKidlectl o
    → set_cron_job_values settings o v ≡ ok n
    → IsScheduled settings v n × (n.meta ≡ o.meta)
set_cron_job_values-HasKidlectl settings o n v = set_values_at settings o n v _ refl

pub new_cron_job-HasKidlectl : (key : Key) → HasKidlectl (new_cron_job key)
unfolding distinct_names containers_to_map
new_cron_job-HasKidlectl key = (refl, _, refl)
