-- ===== src/Entry.antt =====
-- `main` of src/main.rs.
pub mod Logging
pub mod Exits
use nexus_relay.Prelude.{ℕ, String, Bool, Option, none, some, List, [], ◌∷◌, if◌then◌else◌}
use nexus_relay.External.Packages.{Packages}
use nexus_relay.Entry.Logging.{Builder, init_logging}
use nexus_relay.Server.{Config}
use nexus_relay.Server.Serve.{Server, Event, Main, accepting, returned, async_main}

-- What `clap` makes of a command line: a configuration, the help that it asks for, or an error.
pub data CommandLine : Type 0 where
  parsed : Config → CommandLine
  help rejected : CommandLine

module _ (pk : Packages) where
  -- The process ends with the help that was asked for, with a message on its use, with an error, or
  -- with success; or it runs.
  pub data Exit : Type 0 where
    help_shown usage failure : Exit
    success runs : Server pk → Exit

  -- The status with which the process exits: `clap` exits with 0 after the help and with 2 after an
  -- error, and a `main` that returns an error exits with 1.
  pub status : Exit → Option ℕ
  status help_shown = some 0
  status usage = some 2
  status failure = some 1
  status (success v) = some 0
  status (runs v) = none

  -- What surrounds the process: the variables that are set, what `clap` makes of the command line,
  -- whether the runtime can be built, which addresses can be bound, whether the endpoint of the ZMQ
  -- listener can be connected to, and what comes to the server.
  pub record World : Type 0 where
    pub env : String → Option String
    pub command_line : CommandLine
    pub builds : Bool
    pub bind : String → Bool
    pub connects : Bool
    pub events : List (Event pk)
    pub channels : pk.Channels

  abbrev exit_of : Option (Server pk × Main) → Exit
  exit_of none = failure
  exit_of (some (v, accepting)) = runs v
  exit_of (some (v, returned)) = success v

  -- `Config::parse()` ends the process when the command line asks for help or does not parse.
  abbrev run : World → CommandLine → Exit
  run w help = help_shown
  run w rejected = usage
  run w (parsed config) =
      if w.builds
      then exit_of (async_main pk config w.bind w.connects w.events w.channels)
      else failure

  unfoldable pub main : World → Builder × Exit
  main w = (init_logging w.env, run w w.command_line)
