-- ===== src/Entry/Logging.antt =====
-- `init_logging` of src/main.rs: the filter and the format of the log.
use text.Mathlib.Text.{◌==◌}
use nexus_relay.Prelude.{ℕ, String, Option, none, some, if◌then◌else◌, ◌&◌, decimal, string_eq}

pub data Level : Type 0 where
  error warn info debug trace : Level

-- The number that systemd knows a level by.
abbrev pub level_number : Level → ℕ
level_number error = 3
level_number warn = 4
level_number info = 6
level_number debug = 7
level_number trace = 7

-- What the logger is given to write.
pub record Record : Type 0 where
  pub level : Level
  pub target : String
  pub args : String

-- The closure that `builder.format` is given.
pub systemd_line : Record → String
systemd_line r = "<" & decimal (level_number r.level) & ">" & r.target & ": " & r.args & "\n"

-- The logger's own format, or that of the closure.
pub data Format : Type 0 where
  own systemd : Format

pub record Builder : Type 0 where
  pub filter : String
  pub format : Format

-- `env` gives the variables that are set. Without `RUST_LOG`, the filter is "info".
pub init_logging : (String → Option String) → Builder
init_logging env = record {
  filter = elim (env "RUST_LOG") [ none ↦ "info" | some s ↦ s ];
  format = elim (env "RUST_LOG_STYLE") [
    | none ↦ own
    | some s ↦ if s == "SYSTEMD" then systemd else own
  ];
}
