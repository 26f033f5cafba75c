-- ===== src/Operator/Ready.antt =====
-- The steps of `main` of cmd/operator/main.go before the start of the manager.
use kidle.Prelude.{◌≡◌, refl, String, false, [], ◌∷◌, ◌⊎◌, inl, inr}
use kidle.Exec.{ok, End, exited, panicked}
use kidle.Api.Registration.{group_version, registered_types}
use kidle.Operator.{
  Flags, ManagerOptions, Builder, IdlingResourceReconciler, Runtime, default_flags, manager_options,
  idling_resource, cron_job, service_account, role, role_binding, deployment, stateful_set,
  controller_builder, reconciler_of, setup_with_manager, init, set_up, prepare,
}
use kidle.Operator.Process.{going, ended}
use kidle.Operator.Gives.{
  Gives, bind-Gives, weaken-Gives, or_exit-Gives, must-Gives, calls-Gives, going_on-Gives,
}

module _ {S Config Manager : Type 0} (runtime : Runtime S Config Manager) where
  -- Each step before the start has succeeded, in this order and with these arguments: the manager is
  -- made with the values of the flags, and the reconciler, with the image of the flags, is registered
  -- with it.
  pub record Ready (before now : S) (manager : Manager) : Type 0 where
    pub flags : Flags
    pub config : Config
    pub s1 : S
    pub s2 : S
    pub s3 : S
    pub s4 : S
    pub s5 : S
    pub s6 : S
    pub s7 : S
    pub scheme : runtime.add_client_go_types before ≡ (ok tt, s1)
    pub types :
        runtime.add_types
          (record { group = "kidle.kidle.dev"; version = "v1beta1" })
          ("IdlingResource" ∷ "IdlingResourceList" ∷ [])
          s1
        ≡ (ok tt, s2)
    pub parsed :
        runtime.parse_flags
          (record {
            metrics_addr = ":8080";
            probe_addr = ":8081";
            enable_leader_election = false;
            kidlectl_image = "kidledev/kidlectl:main";
          })
          s2
        ≡ (going flags, s3)
    pub configured : runtime.get_config_or_die s3 ≡ (going config, s4)
    pub managed :
        runtime.new_manager config
          (record {
            metrics_bind_address = flags.metrics_addr;
            port = 9443;
            health_probe_bind_address = flags.probe_addr;
            leader_election = flags.enable_leader_election;
            leader_election_id = "d2ebac05.kidle.dev";
          })
          s4
        ≡ (ok manager, s5)
    pub registered :
        runtime.complete manager
          (record {
            for_type = idling_resource;
            owns = cron_job ∷ service_account ∷ role ∷ role_binding ∷ [];
            watches = deployment ∷ stateful_set ∷ cron_job ∷ [];
          })
          (record {
            manager = manager;
            log_names = "controllers" ∷ "IdlingResource" ∷ [];
            event_recorder_name = "idlingresource-controller";
            kidlectl_image = flags.kidlectl_image;
          })
          s5
        ≡ (ok tt, s6)
    pub healthy : runtime.add_healthz_check manager "healthz" s6 ≡ (ok tt, s7)
    pub readied : runtime.add_readyz_check manager "readyz" s7 ≡ (ok tt, now)

  -- `I` holds after each call but the start of the manager, if it does before.
  pub record Spares (I : S → Type 0) : Type 0 where
    pub scheme : (s : S) → I s → I (runtime.add_client_go_types s).1
    pub types : (s : S) → I s → I (runtime.add_types group_version registered_types s).1
    pub parsed : (s : S) → I s → I (runtime.parse_flags default_flags s).1
    pub configured : (s : S) → I s → I (runtime.get_config_or_die s).1
    pub managed :
        (config : Config) (options : ManagerOptions) (s : S)
        → I s
        → I (runtime.new_manager config options s).1
    pub registered :
        (manager : Manager) (builder : Builder) (r : IdlingResourceReconciler Manager) (s : S)
        → I s
        → I (runtime.complete manager builder r s).1
    pub healthy :
        (manager : Manager) (name : String) (s : S)
        → I s
        → I (runtime.add_healthz_check manager name s).1
    pub readied :
        (manager : Manager) (name : String) (s : S)
        → I s
        → I (runtime.add_readyz_check manager name s).1

  -- The process has ended with the exit code 1, by a panic, or in one of the two libraries that end
  -- it themselves.
  abbrev pub Stopped : End → Type 0
  Stopped e =
      (e ≡ exited 1)
      ⊎ ((m : String) × (e ≡ panicked m))
      ⊎ ((s : S) × ((runtime.parse_flags default_flags s).0 ≡ ended e))
      ⊎ ((s : S) × ((runtime.get_config_or_die s).0 ≡ ended e))

  made_ready :
      (before : S) (flags : Flags) (config : Config) (manager : Manager) (now : S)
      → ((s4 s5 s6 s7 : S) × ((s3 : S) × ((s2 : S) × ((s1 : S) × (runtime.add_client_go_types before
                  ≡ (ok tt, s1))
                × (runtime.add_types group_version registered_types s1 ≡ (ok tt, s2)))
              × (runtime.parse_flags default_flags s2 ≡ (going flags, s3)))
            × (runtime.get_config_or_die s3 ≡ (going config, s4)))
          × (runtime.new_manager config (manager_options flags) s4 ≡ (ok manager, s5))
          × (runtime.complete manager controller_builder (reconciler_of flags manager) s5
              ≡ (ok tt, s6))
          × (runtime.add_healthz_check manager "healthz" s6 ≡ (ok tt, s7))
          × (runtime.add_readyz_check manager "readyz" s7 ≡ (ok tt, now)))
      → Ready before now manager
  made_ready before flags config manager now
        (
          s4,
          s5,
          s6,
          s7,
          (s3, (s2, (s1, scheme, types), parsed), configured),
          managed,
          registered,
          healthy,
          readied,
        ) =
      record {
        flags = flags;
        config = config;
        s1 = s1;
        s2 = s2;
        s3 = s3;
        s4 = s4;
        s5 = s5;
        s6 = s6;
        s7 = s7;
        scheme = scheme;
        types = types;
        parsed = parsed;
        configured = configured;
        managed = managed;
        registered = registered;
        healthy = healthy;
        readied = readied;
      }

  module _ (I : S → Type 0) (spares : Spares I) where
    fails : Stopped (exited 1)
    fails = inl refl

    panics : (m : String) → Stopped (panicked m)
    panics m = inr (inl (m, refl))

    init-Gives :
        (before : S)
        → Gives I Stopped
            (λ s. s ≡ before)
            (init runtime)
            (λ u now.
              (s1 : S) × (runtime.add_client_go_types before ≡ (ok tt, s1))
              × (runtime.add_types group_version registered_types s1 ≡ (ok tt, now)))
    unfolding init
    init-Gives before =
        bind-Gives _ _ (must-Gives fails panics runtime.add_client_go_types spares.scheme) (λ u.
          weaken-Gives _
            (must-Gives fails panics (runtime.add_types group_version registered_types)
              spares.types)
            (λ v now (s1, (s, same, scheme), types). (s1, rw (← same) scheme, types)))

    set_up-Gives :
        (flags : Flags) (config : Config) (P : S → Type 0)
        → Gives I Stopped P (set_up runtime flags config) (λ manager now.
          (s4 s5 s6 s7 : S) × P s4
          × (runtime.new_manager config (manager_options flags) s4 ≡ (ok manager, s5))
          × (runtime.complete manager controller_builder (reconciler_of flags manager) s5
              ≡ (ok tt, s6))
          × (runtime.add_healthz_check manager "healthz" s6 ≡ (ok tt, s7))
          × (runtime.add_readyz_check manager "readyz" s7 ≡ (ok tt, now)))
    unfolding set_up setup_with_manager
    set_up-Gives flags config P =
        bind-Gives _ _
          (or_exit-Gives fails panics _ (runtime.new_manager config (manager_options flags))
            (spares.managed config (manager_options flags)))
          (λ manager.
            bind-Gives _ _
              (or_exit-Gives fails panics _
                (runtime.complete manager controller_builder (reconciler_of flags manager))
                (spares.registered manager controller_builder (reconciler_of flags manager)))
              (λ u.
                bind-Gives _ _
                  (or_exit-Gives fails panics _ (runtime.add_healthz_check manager "healthz")
                    (spares.healthy manager "healthz"))
                  (λ u.
                    bind-Gives _ _
                      (or_exit-Gives fails panics _ (runtime.add_readyz_check manager "readyz")
                        (spares.readied manager "readyz"))
                      (λ u.
                        going_on-Gives manager
                          (λ now (s7, (s6, (s5, (s4, p, managed), registered), healthy), readied).
                            (s4, s5, s6, s7, p, managed, registered, healthy, readied))))))

    pub prepare-Gives :
        (before : S)
        → Gives I Stopped
            (λ s. s ≡ before)
            (prepare runtime)
            (λ manager now. Ready before now manager)
    unfolding prepare
    prepare-Gives before = bind-Gives _ _ (init-Gives before) (λ u.
        bind-Gives _ _
          (calls-Gives fails panics (runtime.parse_flags default_flags)
            (λ s x e. inr (inr (inl (s, e)))) spares.parsed)
          (λ flags.
            bind-Gives _ _
              (calls-Gives fails panics runtime.get_config_or_die (λ s x e. inr (inr (inr (s, e))))
                spares.configured)
              (λ config.
                weaken-Gives _ (set_up-Gives flags config _) (made_ready before flags config))))
