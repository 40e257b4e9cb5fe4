-- ===== src/External/Packages.antt =====
-- All the packages together, and the `from_value` that `#[derive(Deserialize)]` makes for the
-- payloads.
use nexus_relay.Prelude.{Option}
use nexus_relay.External.Json.{Json}
use nexus_relay.External.Elements.{Elements}
use nexus_relay.External.Lwk.{Lwk}
use nexus_relay.External.Mpsc.{Mpsc}
use nexus_relay.Payload.{Any, Tx, Pair, Wallet, Pset}

-- `none` is an error of `from_value`.
pub record Serde (j : Json) : Type 0 where
  pub any_from_value : j.Value → Option Any
  pub tx_from_value : j.Value → Option Tx
  pub pair_from_value : j.Value → Option Pair
  pub wallet_from_value : j.Value → Option Wallet
  pub pset_from_value : j.Value → Option Pset

pub record Packages : Type 1 where
  pub json : Json
  pub open json use *
  pub elements : Elements
  pub open elements use *
  pub lwk : Lwk json elements
  pub open lwk use *
  pub mpsc : Mpsc
  pub open mpsc use *
  pub serde : Serde json
  pub open serde use *
