-- ===== src/Controller/CronStrategies/Values.antt =====
-- The contents of the CronJobs: `NewCronJob`, `setCronjobValues` and `cronJobNeedChanges`.
use kidle.Prelude.{
  String, ◌≡◌, Bool, true, false, not, ◌||◌, Option, none, some, List, [], ◌∷◌, ◌==◌,
}
use kidle.Exec.{Result, ok, err, panic}
use kidle.Dns.{to_dns_name}
use kidle.Pointer.{bool, differs_from_new}
use kidle.Meta.{Key, key_of, ObjectMeta}
use kidle.Objects.{Container, CronJob, Role}
use kidle.Containers.{containers_to_map, set_container}
use kidle.Api.{CronStrategy, IdlingResource}

-- What the reconciler is set up with: its field `KidlectlImage`, `SetControllerReference` of
-- controllerutil with its scheme, and the group that a Role says it has.
pub record Settings : Type 0 where
  pub kidlectl_image : String
  pub set_controller_reference : IdlingResource → ObjectMeta → Result ObjectMeta
  pub group_of_role : Role → String

-- The owner that `SetControllerReference` sets makes no difference to the key.
abbrev pub KeepsKey : Settings → Type 0
KeepsKey settings =
    (instance : IdlingResource) (m n : ObjectMeta)
    → settings.set_controller_reference instance m ≡ ok n
    → key_of n ≡ key_of m

abbrev pub cron_job_container_name : String
cron_job_container_name = "kidlectl"

abbrev pub command_idle : String
command_idle = "idle"

abbrev pub command_wakeup : String
command_wakeup = "wakeup"

pub record CronJobValues : Type 0 where
  pub key : Key
  pub instance_name : String
  pub strategy : CronStrategy
  pub command : String

-- The metadata of an object that the code makes.
abbrev pub fresh_meta : Key → ObjectMeta
fresh_meta key = record {
  name = key.name;
  namespace = key.namespace;
  annotations = none;
  finalizers = [];
  deletion_timestamp = none;
  owner_references = [];
}

-- `NewCronJob`
abbrev pub new_cron_job : Key → CronJob
new_cron_job key = record {
  meta = fresh_meta key;
  suspend = none;
  schedule = "";
  service_account_name = "";
  restart_policy = "OnFailure";
  containers = record { name = cron_job_container_name; image = ""; args = [] } ∷ [];
}

-- `getSaName`
abbrev pub get_sa_name : String → Result String
get_sa_name instance_name = to_dns_name "kidle" instance_name "sa"

-- The entry of a Go map, or the zero value.
abbrev pub or_zero : Option Container → Container
or_zero none = record { name = ""; image = ""; args = [] }
or_zero (some c) = c

abbrev pub kidlectl_container : CronJob → Container
kidlectl_container cron_job =
    or_zero (containers_to_map cron_job.containers cron_job_container_name)

-- The comparison of the arguments, which are exactly two.
abbrev pub args_differ : List String → String → String → Bool
args_differ [] command name = true
args_differ (a ∷ []) command name = true
args_differ (a ∷ b ∷ []) command name = not (a == command) || not (b == name)
args_differ (a ∷ b ∷ c ∷ rest) command name = true

need_changes : Settings → CronJob → CronJobValues → Result String → Result Bool
need_changes settings cron_job cj_values (ok sa_name) = ok (
    not (cron_job.service_account_name == sa_name)
    || differs_from_new bool cron_job.suspend false
    || not (cron_job.schedule == cj_values.strategy.schedule)
    || not ((kidlectl_container cron_job).image == settings.kidlectl_image)
    || args_differ (kidlectl_container cron_job).args cj_values.command cj_values.key.name)
need_changes settings cron_job cj_values (err e) = err e
need_changes settings cron_job cj_values (panic m) = panic m

-- `cronJobNeedChanges`
unfoldable pub cron_job_need_changes : Settings → CronJob → CronJobValues → Result Bool
unfolding need_changes
cron_job_need_changes settings cron_job cj_values =
    need_changes settings cron_job cj_values (get_sa_name cj_values.instance_name)

with_values : Settings → CronJob → CronJobValues → Result String → Result CronJob
with_values settings cron_job cj_values (ok sa_name) =
    let container = record (kidlectl_container cron_job) {
      image = settings.kidlectl_image;
      args = cj_values.command ∷ cj_values.instance_name ∷ [];
    } in
    ok (record cron_job {
      service_account_name = sa_name;
      suspend = some false;
      schedule = cj_values.strategy.schedule;
      containers = set_container cron_job.containers container;
    })
with_values settings cron_job cj_values (err e) = err e
with_values settings cron_job cj_values (panic m) = panic m

-- `setCronjobValues`
unfoldable pub set_cron_job_values : Settings → CronJob → CronJobValues → Result CronJob
unfolding with_values
set_cron_job_values settings cron_job cj_values =
    with_values settings cron_job cj_values (get_sa_name cj_values.instance_name)

-- An object with the metadata that `SetControllerReference` made.
abbrev pub owned_by : {O : Type 0} → (ObjectMeta → O) → Result ObjectMeta → Result O
owned_by with_meta (ok m) = ok (with_meta m)
owned_by with_meta (err e) = err e
owned_by with_meta (panic m) = panic m

abbrev pub owned_cron_job : Settings → IdlingResource → CronJob → Result CronJob
owned_cron_job settings instance cj =
    owned_by (λ m. record cj { meta = m }) (settings.set_controller_reference instance cj.meta)
