-- ===== src/Agent/Start.antt =====
-- src/agent/main.cpp and src/agent/agent_config.cpp: the options, the session and the configuration
-- of the agent.
use draind.Base.{
  ℕ, ◌||◌, Option, none, some, List, [], ◌∷◌, ◌++◌, Text, codes, is_empty, text_eq, Result, ok, err,
  out_of_fuel, ◌==◌, if◌then◌else◌,
}
use draind.Json.Value.{Value, Floats, str}
use draind.Json.Parser.{parse}
use draind.Log.{LogLevel, info, parse_log_level}
use draind.Agent.{AgentOptions}

pub record AgentConfig : Type 0 where
  pub lock_cmd : Text
  pub before_sleep_cmd : Text

-- What the process finds: the user, the environment, the session that logind names for the process,
-- the home in the password database, and the files.
pub record Surrounds : Type 0 where
  pub uid : ℕ
  pub getenv : Text → Option Text
  pub pid_session : Option Text
  pub pw_dir : Option Text
  pub files : Text → Option Text

or_empty : Option Text → Text
or_empty none = []
or_empty (some v) = v

-- `env_str` with the empty default.
unfoldable pub env_str : Surrounds → Text → Text
unfolding or_empty
env_str p key = or_empty (p.getenv key)

unfoldable pub user_config_path : Surrounds → Text
unfolding or_empty
user_config_path p =
    let xdg = env_str p (codes "XDG_CONFIG_HOME") in
    let home = env_str p (codes "HOME") in
    let base =
      if is_empty xdg
      then (if is_empty home then or_empty p.pw_dir else home) ++ codes "/.config"
      else xdg in
    base ++ codes "/draind/draind-agent.json"

abbrev pub system_agent_config : Text
system_agent_config = codes "/etc/xdg/draind/draind-agent.json"

-- XDG_SESSION_ID, or what logind says.
unfoldable pub find_session : Surrounds → Text
unfolding or_empty
find_session p =
    let session = env_str p (codes "XDG_SESSION_ID") in
    if is_empty session then or_empty p.pid_session else session

-- The loop over the arguments: `none` where it prints a message and returns 1.
unfoldable pub read_level : AgentOptions → Result LogLevel → Option AgentOptions
read_level opts (ok level) = some (record opts { log_level = level })
read_level opts (err e) = none
read_level opts out_of_fuel = none

unfoldable pub read_args : Option AgentOptions → List Text → Option AgentOptions
unfolding read_level
read_args none args = none
read_args (some opts) [] = some opts
read_args (some opts) (a ∷ []) = none
read_args (some opts) (a ∷ v ∷ args) =
    read_args
      (if text_eq a (codes "-s") || text_eq a (codes "--socket")
        then some (record opts { socket_path = v })
        else if text_eq a (codes "-l") || text_eq a (codes "--log-level")
        then read_level opts (parse_log_level v)
        else none)
      args

module _ (fl : Floats) where
  -- The text that `load_agent_config` throws for a file that does not parse.
  config_error : Text → Result Value → Result AgentConfig
  config_error path (ok root) = ok (record {
    lock_cmd = str root (codes "lock_cmd") [];
    before_sleep_cmd = str root (codes "before_sleep_cmd") [];
  })
  config_error path (err e) =
      err (codes "agent config parse error in " ++ (path ++ (codes ": " ++ e)))
  config_error path out_of_fuel = out_of_fuel

  -- `none` where the file cannot be opened.
  unfoldable pub load_agent_config : Text → Option Text → Option (Result AgentConfig)
  unfolding config_error
  load_agent_config path none = none
  load_agent_config path (some text) = some (config_error path (parse fl text))

  with_config : AgentOptions → Option (Result AgentConfig) → AgentOptions
  with_config opts none = opts
  with_config opts (some (ok c)) = record opts {
    lock_cmd = c.lock_cmd;
    before_sleep_cmd = c.before_sleep_cmd;
  }
  with_config opts (some (err e)) = opts
  with_config opts (some out_of_fuel) = opts

  first_config :
      Option (Result AgentConfig) → Option (Result AgentConfig) → Option (Result AgentConfig)
  first_config none system = system
  first_config (some user) system = some user

  -- The file of the user, or that of the system where there is none; one that does not parse is
  -- dropped with the other.
  unfoldable pub use_config : Surrounds → AgentOptions → AgentOptions
  unfolding with_config first_config load_agent_config
  use_config p opts =
      let path = user_config_path p in
      with_config opts (
        first_config (load_agent_config path (p.files path))
          (load_agent_config system_agent_config (p.files system_agent_config)))

  -- The options before the arguments are read.
  abbrev pub default_options : Surrounds → AgentOptions
  default_options p = record {
    socket_path = [];
    session_id = find_session p;
    lock_cmd = [];
    before_sleep_cmd = [];
    uid = p.uid;
    log_level = info;
  }

  refuse_root : Surrounds → Option AgentOptions → Option AgentOptions
  unfolding use_config
  refuse_root p none = none
  refuse_root p (some opts) = if p.uid == 0 then none else some (use_config p opts)

  -- `main` up to the start of the agent, `none` where it returns 1 instead.
  unfoldable pub main_options : Surrounds → List Text → Option AgentOptions
  unfolding read_args refuse_root
  main_options p args = refuse_root p (read_args (some (default_options p)) args)

-- The constructor of `Agent`: no path is the path of the daemon.
unfoldable pub with_default_path : AgentOptions → AgentOptions
with_default_path opts =
    if is_empty opts.socket_path
    then record opts { socket_path = codes "/run/draind/draind.sock" }
    else opts
