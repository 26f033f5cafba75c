-- ===== src/Kidlectl/Commands/Laws.antt =====
-- What `kidlectl idle` and `kidlectl wakeup` do to the cluster, by the way in which they end.
use kidle.Prelude.{String, ◌≡◌, refl, ap, Bool, true, false, ◌⊎◌, inl, inr}
use kidle.Exec.{Result, ok, err, panic, End, returned, exited, panicked}
use kidle.Meta.{Key}
use kidle.Api.{idling_resource_object}
use kidle.Cluster.{Cluster, is_ok, idling_resource_slot, IsLawful}
use kidle.Kidlectl.Client.{new_kidle_client, apply_desired_idle_state}
use kidle.Kidlectl.Client.Laws.{
  Applied, apply_desired_idle_state-Applied, apply_desired_idle_state_failed,
}
use kidle.Kidlectl.Commands.{
  Console, NameOptions, Setup, say, reported, Connected, connected, set_idle, idle_command,
  wakeup_command,
}

module _ {Config W : Type 0} (view : W → Cluster) (setup : Setup Config W) where
  -- How a command that is to set the flag ends: it returns with the flag set in the namespace of
  -- the connection, or it exits with 2 or 3, or panics, and has changed nothing.
  abbrev pub Ended : Bool → NameOptions → Console W → End → Console W → Type 0
  Ended idle opts s returned t =
      (k : Connected setup) × (changed : Bool) × (new_kidle_client setup.connecting opts.namespace
        ≡ ok k)
      × Applied (view s.cluster) (view t.cluster) idle changed
          (record { namespace = k.namespace; name = opts.name })
  Ended idle opts s (exited code) t = (view t.cluster ≡ view s.cluster) × ((code ≡ 2) ⊎ (code ≡ 3))
  Ended idle opts s (panicked m) t = view t.cluster ≡ view s.cluster

module _ {Config W : Type 0} (view : W → Cluster) (setup : Setup Config W)
    (lawful : (namespace : String) (k : Connected setup)
      → new_kidle_client setup.connecting namespace ≡ ok k
      → IsLawful view idling_resource_slot idling_resource_object k.client) where
  reported-Ended :
      (idle : Bool) (failed done already : String) (opts : NameOptions) (k : Connected setup)
      (s started : Console W) (p : Result Bool × W)
      → new_kidle_client setup.connecting opts.namespace ≡ ok k
      → ((changed : Bool)
          → p.0 ≡ ok changed
          → Applied
              (view s.cluster)
              (view p.1)
              idle
              changed
              (record { namespace = k.namespace; name = opts.name }))
      → (is_ok p.0 ≡ false → view p.1 ≡ view s.cluster)
      → let (end, t) = reported failed done already started p in Ended view setup idle opts s end t
  unfolding reported
  reported-Ended idle failed done already opts k s started (ok true, w) h good bad =
      (k, true, h, good true refl)
  reported-Ended idle failed done already opts k s started (ok false, w) h good bad =
      (k, false, h, good false refl)
  reported-Ended idle failed done already opts k s started (err e, w) h good bad =
      (bad refl, inr refl)
  reported-Ended idle failed done already opts k s started (panic m, w) h good bad = bad refl

  set_idle-Ended :
      (idle : Bool) (doing failed done already : String) (opts : NameOptions) (k : Connected setup)
      (s : Console W)
      → new_kidle_client setup.connecting opts.namespace ≡ ok k
      → let (end, t) = set_idle setup idle doing failed done already opts k s in
        Ended view setup idle opts s end t
  unfolding set_idle
  set_idle-Ended idle doing failed done already opts k s h =
      let req : Key = record { namespace = k.namespace; name = opts.name } in
      let (r, w) = apply_desired_idle_state k.client idle req s.cluster in
      let law = lawful opts.namespace k h in
      reported-Ended idle failed done already opts k s (say doing s) (r, w) h
        (λ changed e.
          apply_desired_idle_state-Applied law idle changed req s.cluster w
            (ap (λ (q : Result Bool). (q, w)) e))
        (λ e. apply_desired_idle_state_failed law idle req s.cluster w r refl e)

  connected-Ended :
      (idle : Bool) (doing failed done already : String) (opts : NameOptions) (s : Console W)
      (got : Result (Connected setup))
      → new_kidle_client setup.connecting opts.namespace ≡ got
      → let (end, t) = connected setup got (set_idle setup idle doing failed done already opts) s in
        Ended view setup idle opts s end t
  unfolding connected
  connected-Ended idle doing failed done already opts s (ok k) h =
      set_idle-Ended idle doing failed done already opts k s h
  connected-Ended idle doing failed done already opts s (err e) h = (refl, inl refl)
  connected-Ended idle doing failed done already opts s (panic m) h = refl

  -- `kidlectl idle` and `kidlectl wakeup` end by returning with the flag of the named IdlingResource
  -- set or cleared and nothing else changed, or by exiting with the code 2 or 3 or a panic with
  -- nothing changed.
  pub idle_command-Ended :
      (opts : NameOptions) (s : Console W)
      → (let (end, t) = idle_command setup opts s in Ended view setup true opts s end t)
        × (let (end, t) = wakeup_command setup opts s in Ended view setup false opts s end t)
  unfolding idle_command wakeup_command
  idle_command-Ended opts s =
      let got = new_kidle_client setup.connecting opts.namespace in
      (
        connected-Ended true "idling" "unable to idle" "scaled to 0" "already idled" opts s got
            refl,
        connected-Ended false "waking up" "unable to wake up" "woke up" "already woke up" opts s got
            refl,
      )
