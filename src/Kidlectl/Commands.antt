-- ===== src/Kidlectl/Commands.antt =====
-- cmd/kidlectl/main.go and cmd/kidlectl/cmd: the commands, their log lines and exit codes.
pub mod Laws
use kidle.Prelude.{
  ℕ, String, Bool, true, false, ◌||◌, Option, none, some, List, [], ◌∷◌, ◌++◌, ◌==◌, if◌then◌else◌,
}
use kidle.Exec.{Error, Result, ok, err, panic, Exec, End, returned, exited, panicked}
use kidle.Meta.{Key}
use kidle.Api.{IdlingResource}
use kidle.Cluster.{ObjectClient}
use kidle.Kidlectl.Resources.{Discovery}
use kidle.Kidlectl.Client.{
  Connecting, KidleClient, new_kidle_client, apply_desired_idle_state, create_idling_resource,
}

-- The text of a log line, or of the line that `fmt.Println` prints.
pub record Console (W : Type 0) : Type 0 where
  pub cluster : W
  pub lines : List String

abbrev pub say : {W : Type 0} → String → Console W → Console W
say line s = record s { lines = s.lines ++ (line ∷ []) }

-- The positional argument and the flags of the commands.
pub record NameOptions : Type 0 where
  pub name : String
  pub namespace : String

pub record CreateOptions : Type 0 where
  pub name : String
  pub namespace : String
  pub idle : Bool
  pub ref : String

pub record VersionInfos : Type 0 where
  pub revision : String
  pub build_user : String
  pub build_date : String
  pub branch : String
  pub version : String

-- The connection to a cluster, what `fmt.Errorf` makes of a format without arguments,
-- `json.Marshal` of the version, and the variables that the linker sets.
pub record Setup (Config W : Type 0) : Type 0 where
  pub connecting : Connecting Config (ObjectClient W IdlingResource) (Discovery W)
  pub format : String → String
  pub marshal : VersionInfos → Result String
  pub version_infos : VersionInfos

-- The lines after an operation, and its exit code.
unfoldable pub reported :
    {W : Type 0} → String → String → String → Console W → Result Bool × W → End × Console W
reported failed done idle s (ok true, w) = (returned, say done (record s { cluster = w }))
reported failed done idle s (ok false, w) = (returned, say idle (record s { cluster = w }))
reported failed done idle s (err e, w) = (exited 3, say failed (record s { cluster = w }))
reported failed done idle s (panic m, w) = (panicked m, record s { cluster = w })

module _ {Config W : Type 0} (setup : Setup Config W) where
  abbrev Connected : Type 0
  Connected = KidleClient (ObjectClient W IdlingResource) (Discovery W)

  -- The first statements of each command.
  unfoldable pub connected :
      Result Connected → (Connected → Console W → End × Console W) → Console W → End × Console W
  connected (ok kidle_client) command s = command kidle_client s
  connected (err e) command s = (exited 2, say "unable to create kidle client" s)
  connected (panic m) command s = (panicked m, s)

  -- The rest of `Idle` and of `Wakeup`.
  unfoldable pub set_idle :
      Bool
      → String
      → String
      → String
      → String
      → NameOptions
      → Connected
      → Console W
      → End × Console W
  unfolding reported
  set_idle idle doing failed done already opts k s =
      let started = say doing s in
      reported failed done already started (
        apply_desired_idle_state k.client idle
          (record { namespace = k.namespace; name = opts.name }) started.cluster)

  -- `Idle`
  unfoldable pub idle_command : NameOptions → Console W → End × Console W
  unfolding connected set_idle
  idle_command opts =
      connected (new_kidle_client setup.connecting opts.namespace)
        (set_idle true "idling" "unable to idle" "scaled to 0" "already idled" opts)

  -- `Wakeup`
  unfoldable pub wakeup_command : NameOptions → Console W → End × Console W
  unfolding connected set_idle
  wakeup_command opts =
      connected (new_kidle_client setup.connecting opts.namespace)
        (set_idle false "waking up" "unable to wake up" "woke up" "already woke up" opts)

  unfoldable pub created : CreateOptions → Connected → Console W → End × Console W
  unfolding reported
  created opts k s =
      let started = say "creating the idling resource" s in
      reported "unable to create an idling resource" "idling resource created"
        "creation of the idling resource failed" started
        (create_idling_resource k.client k.discovery_client setup.format opts.idle opts.ref
          (record { namespace = k.namespace; name = opts.name }) started.cluster)

  -- `Create`
  unfoldable pub create_command : CreateOptions → Console W → End × Console W
  unfolding connected created
  create_command opts = connected (new_kidle_client setup.connecting opts.namespace) (created opts)

  -- `Version`; `GetVersionInfos` copies the variables.
  unfoldable pub version_command : Console W → End × Console W
  version_command s = elim (setup.marshal setup.version_infos) [
    | ok text ↦ (returned, say text s)
    | err e ↦ (returned, say setup.version_infos.version s)
    | panic m ↦ (panicked m, s)
  ]

-- What go-flags returns: the name of the active command and the options, or an error that is a
-- flag error of the given type or another one.
pub data FlagErrorType : Type 0 where
  err_command_required err_required other_flag_error : FlagErrorType

pub record Options : Type 0 where
  pub active : String
  pub idle_cmd : NameOptions
  pub wakeup_cmd : NameOptions
  pub create_cmd : CreateOptions

pub data Parsed : Type 0 where
  parsed : Options → Parsed
  flag_error : FlagErrorType → Parsed
  other_error : Parsed

-- Whether `main` writes the help text.
unfoldable pub wants_help : FlagErrorType → Bool
wants_help err_command_required = true
wants_help err_required = true
wants_help other_flag_error = false

module _ {Config W : Type 0} (setup : Setup Config W) (help : String) where
  -- The switch on the active command.
  unfoldable pub execute : Options → Console W → End × Console W
  unfolding idle_command wakeup_command create_command version_command
  execute opts =
      if opts.active == "idle"
      then idle_command setup opts.idle_cmd
      else if opts.active == "wakeup"
      then wakeup_command setup opts.wakeup_cmd
      else if opts.active == "create"
      then create_command setup opts.create_cmd
      else if opts.active == "version"
      then version_command setup
      else (λ s. (returned, s))

  -- `main`, after the flags are parsed
  unfoldable pub main : Parsed → Console W → End × Console W
  unfolding execute wants_help
  main (parsed opts) s = execute opts s
  main (flag_error t) s = (exited 1, if wants_help t then say help s else s)
  main other_error s = (exited 1, s)
