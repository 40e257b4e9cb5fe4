-- ===== src/External/Lwk.antt =====
-- The `lwk_wollet` package: Liquidex proposals (src/proposal.rs, src/jsonrpc.rs).
use nexus_relay.Prelude.{String, Option, Result}
use nexus_relay.External.Json.{Json}
use nexus_relay.External.Elements.{Elements}

pub record Lwk (j : Json) (el : Elements) : Type 1 where
  pub LwkError : Type 0
  -- `LiquidexProposal<Unvalidated>` and `LiquidexProposal<Validated>`
  pub Unvalidated : Type 0
  pub Validated : Type 0
  pub needed_tx : Unvalidated → Result LwkError el.Txid
  pub validate : Unvalidated → el.Transaction → Result LwkError Validated
  pub insecure_validate : Unvalidated → Result LwkError Validated
  -- `input().asset` and `output().asset`, as they are displayed.
  pub input_asset : Validated → String
  pub output_asset : Validated → String
  -- `to_value`, whose result the source unwraps and which is taken not to fail, and `from_value`,
  -- where `none` is an error.
  pub unvalidated_to_value : Unvalidated → j.Value
  pub validated_to_value : Validated → j.Value
  pub unvalidated_from_value : j.Value → Option Unvalidated
