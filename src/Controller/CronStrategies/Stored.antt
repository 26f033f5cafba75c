-- ===== src/Controller/CronStrategies/Stored.antt =====
-- What `createOrUpdateCronJob` of pkg/controllers/cron_strategies.go stores.
use kidle.Prelude.{◌≡◌, refl, ap, ◌∙◌, Bool, true, false, some, arith, inl, inr, Bool-cases}
use kidle.Exec.{is_not_found, Result, ok, err, panic}
use kidle.Meta.{key_of, ObjectMeta}
use kidle.Objects.{CronJob, cron_job_object}
use kidle.Api.{IdlingResource}
use kidle.Cluster.{Cluster, Client, put, is_gone, cron_job_slot, IsLawful}
use kidle.Controller.State.{World}
use kidle.Controller.CronStrategies.{
  create_cron_job, write_values, update_cron_job, create_or_update_cron_job,
}
use kidle.Controller.CronStrategies.Values.{
  Settings, KeepsKey, CronJobValues, new_cron_job, owned_cron_job, cron_job_need_changes,
  set_cron_job_values,
}
use kidle.Controller.CronStrategies.Laws.{
  HasKidlectl, set_cron_job_values-HasKidlectl, new_cron_job-HasKidlectl, IsScheduled,
  cron_job_need_changes_always,
}

-- The CronJob under the key is one that runs kidlectl as asked for, and no other object has changed.
pub record Stored (settings : Settings) (v : CronJobValues) (before after : Cluster) : Type 0 where
  pub cron_job : CronJob
  pub scheduled : IsScheduled settings v cron_job
  pub written : after ≡ record before { cron_jobs = put v.key (some cron_job) before.cron_jobs }

module _ {W : Type 0} (client : Client W) (settings : Settings) where
  -- The write of a CronJob that is there, and its answer.
  pub write_values-ok_at :
      (v : CronJobValues) (o : CronJob) (w x : World W) (u : Unit {0}) (made : Result CronJob)
      → set_cron_job_values settings o v ≡ made
      → write_values client settings o v w ≡ (ok u, x)
      → (n : CronJob) × (made ≡ ok n)
        × ((client.cron_jobs.update n w.cluster).0 ≡ ok tt)
        × (x.cluster ≡ (client.cron_jobs.update n w.cluster).1)
  unfolding write_values
  write_values-ok_at v o w x u (ok n) g e = (n, refl, ground arith, ground arith)
  write_values-ok_at v o w x u (err m) g e = ground arith
  write_values-ok_at v o w x u (panic m) g e = ground arith

  pub update_writes_at :
      (v : CronJobValues) (o : CronJob) (w x : World W) (u : Unit {0}) (changes : Result Bool)
      → cron_job_need_changes settings o v ≡ changes
      → update_cron_job client settings o v w ≡ (ok u, x)
      → write_values client settings o v w ≡ (ok u, x)
  unfolding update_cron_job
  update_writes_at v o w x u (ok true) g e = ground arith
  update_writes_at v o w x u (ok false) g e =
      let always : false ≡ true = cron_job_need_changes_always settings o v false g in cc
  update_writes_at v o w x u (err m) g e = ground arith
  update_writes_at v o w x u (panic m) g e = ground arith

  -- The `Create` call, and its answer.
  pub create-ok_at :
      (instance : IdlingResource) (v : CronJobValues) (w x : World W) (u : Unit {0})
      (made owned : Result CronJob)
      → set_cron_job_values settings (new_cron_job v.key) v ≡ made
      → ((n : CronJob) → made ≡ ok n → owned_cron_job settings instance n ≡ owned)
      → create_cron_job client settings instance v w ≡ (ok u, x)
      → (n o : CronJob) × (made ≡ ok n)
        × (owned ≡ ok o)
        × ((client.cron_jobs.create o w.cluster).0 ≡ ok tt)
        × (x.cluster ≡ (client.cron_jobs.create o w.cluster).1)
  unfolding create_cron_job
  create-ok_at instance v w x u (ok n) (ok o) g h e =
      let owns = h n refl in (n, o, refl, refl, ground arith, ground arith)
  create-ok_at instance v w x u (ok n) (err m) g h e = let owns = h n refl in ground arith
  create-ok_at instance v w x u (ok n) (panic m) g h e = let owns = h n refl in ground arith
  create-ok_at instance v w x u (err m) owned g h e = ground arith
  create-ok_at instance v w x u (panic m) owned g h e = ground arith

-- With an owner set, it is scheduled still, under the same key.
owned_at :
    (settings : Settings) (keeps : KeepsKey settings) (instance : IdlingResource)
    (v : CronJobValues) (n o : CronJob) (m : Result ObjectMeta)
    → settings.set_controller_reference instance n.meta ≡ m
    → IsScheduled settings v n
    → owned_cron_job settings instance n ≡ ok o
    → IsScheduled settings v o × (key_of o.meta ≡ key_of n.meta)
owned_at settings keeps instance v n o (ok m) g s e =
    let same : record n { meta = m } ≡ o = ground arith in
    rw (← same) (
      record {
        account = s.account;
        runs = s.runs;
        scheduled = s.scheduled;
        container = s.container;
      },
      keeps instance n.meta m g,
    )
owned_at settings keeps instance v n o (err m) g s e = ground arith
owned_at settings keeps instance v n o (panic m) g s e = ground arith

module _ {W : Type 0} {view : W → Cluster} (client : Client W) (settings : Settings)
    (law : IsLawful view cron_job_slot cron_job_object client.cron_jobs) where
  update-ok :
      (v : CronJobValues) (o : CronJob) (w x : World W) (u : Unit {0})
      → (view w.cluster).cron_jobs v.key ≡ some o
      → HasKidlectl o
      → update_cron_job client settings o v w ≡ (ok u, x)
      → Stored settings v (view w.cluster) (view x.cluster)
  update-ok v o w x u there has e =
      let writes = update_writes_at client settings v o w x u _ refl e in
      let (n, made, stored, moved) = write_values-ok_at client settings v o w x u _ refl writes in
      let (scheduled, meta) = set_cron_job_values-HasKidlectl settings o n v has made in
      let named : key_of n.meta ≡ v.key = rw meta (law.get_key v.key w.cluster o there) in
      let lives : is_gone n.meta ≡ false = rw meta (law.get_lives v.key w.cluster o there) in
      record {
        cron_job = n;
        scheduled = scheduled;
        written = ap view moved ∙ law.update-ok n w.cluster tt stored ∙ rw (named, lives) refl;
      }

  pub owned_of : IdlingResource → CronJobValues → Result CronJob
  owned_of instance v = elim (set_cron_job_values settings (new_cron_job v.key) v) [
    | ok n ↦ owned_cron_job settings instance n
    | err m ↦ err m
    | panic m ↦ panic m
  ]

  pub owned_of_made :
      (instance : IdlingResource) (v : CronJobValues) (n : CronJob)
      → set_cron_job_values settings (new_cron_job v.key) v ≡ ok n
      → owned_cron_job settings instance n ≡ owned_of instance v
  unfolding owned_of
  owned_of_made instance v n g = rw (owned_of, g) refl

  create-ok :
      (keeps : KeepsKey settings) (instance : IdlingResource) (v : CronJobValues) (w x : World W)
      (u : Unit {0})
      → create_cron_job client settings instance v w ≡ (ok u, x)
      → Stored settings v (view w.cluster) (view x.cluster)
  create-ok keeps instance v w x u e =
      let (n, o, made, owns, stored, moved) =
        create-ok_at client settings instance v w x u
          (set_cron_job_values settings (new_cron_job v.key) v) (owned_of instance v) refl
          (owned_of_made instance v) e in
      let (scheduled, meta) =
        set_cron_job_values-HasKidlectl settings (new_cron_job v.key) n v
          (new_cron_job-HasKidlectl v.key) made in
      let owner : owned_cron_job settings instance n ≡ ok o =
        owned_of_made instance v n made ∙ owns in
      let (owned, kept) = owned_at settings keeps instance v n o _ refl scheduled owner in
      let named : key_of o.meta ≡ v.key = kept ∙ rw meta refl in
      record {
        cron_job = o;
        scheduled = owned;
        written = ap view moved ∙ law.create-ok o w.cluster tt stored ∙ rw named refl;
      }

  after_get-Stored :
      (keeps : KeepsKey settings) (instance : IdlingResource) (v : CronJobValues) (w x : World W)
      (u : Unit {0}) (got : Result CronJob)
      → (client.cron_jobs.get v.key w.cluster).0 ≡ got
      → ((o : CronJob) → (view w.cluster).cron_jobs v.key ≡ some o → HasKidlectl o)
      → create_or_update_cron_job client settings instance v w ≡ (ok u, x)
      → Stored settings v (view w.cluster) (view x.cluster)
  unfolding create_or_update_cron_job
  after_get-Stored keeps instance v w x u (ok o) g has e =
      let there = law.get-ok v.key w.cluster o g in
      let read : World W = record w { cluster = (client.cron_jobs.get v.key w.cluster).1 } in
      let run : update_cron_job client settings o v read ≡ (ok u, x) = ground arith in
      let seen : view read.cluster ≡ view w.cluster = law.get-view v.key w.cluster in
      rw seen at (update-ok v o read x u (rw seen there) (has o there) run)
  after_get-Stored keeps instance v w x u (err m) g has e = elim (Bool-cases (is_not_found m)) [
    | inl missing ↦
        let read : World W = record w { cluster = (client.cron_jobs.get v.key w.cluster).1 } in
        let run : create_cron_job client settings instance v read ≡ (ok u, x) = ground arith in
        let seen : view read.cluster ≡ view w.cluster = law.get-view v.key w.cluster in
        rw seen at (create-ok keeps instance v read x u run)
    | inr other ↦ ground arith
  ]
  after_get-Stored keeps instance v w x u (panic m) g has e = ground arith

  -- A `createOrUpdateCronJob` that succeeds, where the read gives a CronJob, has written one that runs
  -- kidlectl as asked for, with the metadata of the one that was read, by a call of `Update` that the
  -- API accepted, and ends in the state after this call: also where the CronJob that was read runs
  -- kidlectl as asked for already, on the same schedule. The CronJob that was read has to have the
  -- container of kidlectl, with containers of distinct names.
  pub create_or_update_cron_job_writes :
      (instance : IdlingResource) (v : CronJobValues) (o : CronJob) (w x : World W) (u : Unit {0})
      → (client.cron_jobs.get v.key w.cluster).0 ≡ ok o
      → HasKidlectl o
      → create_or_update_cron_job client settings instance v w ≡ (ok u, x)
      → (n : CronJob) × IsScheduled settings v n
        × (n.meta ≡ o.meta)
        × ((client.cron_jobs.update n (client.cron_jobs.get v.key w.cluster).1).0 ≡ ok tt)
        × (x.cluster ≡ (client.cron_jobs.update n (client.cron_jobs.get v.key w.cluster).1).1)
  unfolding create_or_update_cron_job
  create_or_update_cron_job_writes instance v o w x u g has e =
      let read : World W = record w { cluster = (client.cron_jobs.get v.key w.cluster).1 } in
      let run : update_cron_job client settings o v read ≡ (ok u, x) = ground arith in
      let writes = update_writes_at client settings v o read x u _ refl run in
      let (n, made, stored, moved) =
        write_values-ok_at client settings v o read x u _ refl writes in
      let (scheduled, meta) = set_cron_job_values-HasKidlectl settings o n v has made in
      (n, scheduled, meta, stored, moved)

  -- A `createOrUpdateCronJob` that succeeds has stored, under the key of the values, a CronJob that
  -- runs kidlectl with the command and the name of the instance, on the schedule of the strategy,
  -- and has changed no other object. A CronJob that was there before has to have the container of
  -- kidlectl, with containers of distinct names.
  pub create_or_update_cron_job-Stored :
      (keeps : KeepsKey settings) (instance : IdlingResource) (v : CronJobValues) (w x : World W)
      (u : Unit {0})
      → ((o : CronJob) → (view w.cluster).cron_jobs v.key ≡ some o → HasKidlectl o)
      → create_or_update_cron_job client settings instance v w ≡ (ok u, x)
      → Stored settings v (view w.cluster) (view x.cluster)
  create_or_update_cron_job-Stored keeps instance v w x u =
      after_get-Stored keeps instance v w x u _ refl
