-- ===== src/Tests/Data.antt =====
-- The objects of the concrete runs: a Deployment `web` and a CronJob `backup`, referenced by
-- nothing yet, an idling resource for each, and a server whose next write meets a conflict.
use kidle.Prelude.{String, Bool, true, false, none, some, [], ◌∷◌}
use kidle.Prelude.Int.{pos}
use kidle.Meta.{ObjectMeta, key_of}
use kidle.Objects.{Workload, CronJob}
use kidle.Api.{IdlingResource, idling_resource_finalizer_name}
use kidle.Cluster.{put}
use kidle.Idler.Change.{Local}
use kidle.Exec.{ok}
use kidle.Controller.State.{Run}
use kidle.Controller.CronStrategies.Values.{Settings}
use kidle.Tests.Memory.{Memory}

abbrev pub named : String → ObjectMeta
named name = record {
  name = name;
  namespace = "apps";
  annotations = none;
  finalizers = [];
  deletion_timestamp = none;
  owner_references = [];
}

abbrev pub web : Workload
web = record { meta = named "web"; replicas = some (pos 3) }

abbrev pub backup : CronJob
backup = record {
  meta = named "backup";
  suspend = some false;
  schedule = "@daily";
  service_account_name = "";
  restart_policy = "OnFailure";
  containers = [];
}

abbrev pub resource : String → String → Bool → IdlingResource
resource kind name idle = record {
  meta = record (named "night") { finalizers = idling_resource_finalizer_name ∷ [] };
  spec = record {
    idling_resource_ref = record { kind = kind; name = name; api_version = "apps/v1" };
    idle = idle;
    idling_strategy = none;
    wakeup_strategy = none;
  };
}

-- The same, marked for deletion.
abbrev pub deleted : IdlingResource → IdlingResource
deleted i = record i { meta = record (i.meta) { deletion_timestamp = some 1 } }

abbrev pub server : Memory
server = record {
  stored = record {
    idling_resources =
        put (key_of (named "night")) (some (resource "Deployment" "web" true)) (λ k. none);
    deployments = put (key_of web.meta) (some web) (λ k. none);
    stateful_sets = λ k. none;
    cron_jobs = put (key_of backup.meta) (some backup) (λ k. none);
    service_accounts = λ k. none;
    roles = λ k. none;
    role_bindings = λ k. none;
  };
  conflicts = 1;
}

abbrev pub web_run : Local Memory Workload
web_run = record { object = web; cluster = server }

abbrev pub backup_run : Local Memory CronJob
backup_run = record { object = backup; cluster = server }

abbrev pub loop_run : Run Memory Workload
loop_run = record { object = web; world = record { cluster = server; events = [] } }

abbrev pub settings : Settings
settings = record {
  kidlectl_image = "kidledev/kidlectl";
  set_controller_reference = λ instance m. ok m;
  group_of_role = λ role. "";
}
