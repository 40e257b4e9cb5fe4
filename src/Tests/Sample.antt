-- ===== src/Tests/Sample.antt =====
-- Packages simple enough to run, with every assumption that is made of the real ones.
pub mod Messages
pub mod Chain
pub mod Channels
pub mod State
use nexus_relay.Prelude.{ℕ, String, Option, none, some, List, ◌≡◌, refl, ap, ℤ, arith}
use nexus_relay.External.Json.{map}
use nexus_relay.External.Packages.{Packages}
use nexus_relay.Payload.{Any, Tx, Pair, Wallet, Pset, any_to_value}
use nexus_relay.Jsonrpc.Parse.RoundTrip.{IsFaithful}
use Messages.{Value, str, object, field, end, sample_json, from_fields-to_fields}
use Chain.{sample_elements, sample_lwk}
use Channels.{sample_mpsc}

abbrev pub any_of : Value → Option Any
any_of (object (field k (str t) end)) = some (record { topic = t; content = none })
any_of (object (field k (str t) (field l (str c) end))) =
    some (record { topic = t; content = some c })
any_of _ = none

abbrev pub tx_of : Value → Option Tx
tx_of (object (field k (str t) end)) = some (record { txid = t })
tx_of _ = none

abbrev pub pair_of : Value → Option Pair
pair_of (object (field k (str a) (field l (str b) end))) = some (record { input = a; output = b })
pair_of _ = none

abbrev pub wallet_of : Value → Option Wallet
wallet_of (object (field k (str a) end)) = some (record { id = a })
wallet_of _ = none

abbrev pub pset_of : Value → Option Pset
pset_of (object (field k (str a) (field l (str b) end))) = some (record { wallet_id = a; pset = b })
pset_of _ = none

abbrev pub sample : Packages
sample = record {
  json = sample_json;
  elements = sample_elements;
  lwk = sample_lwk;
  mpsc = sample_mpsc;
  serde = record {
    any_from_value = any_of;
    tx_from_value = tx_of;
    pair_from_value = pair_of;
    wallet_from_value = wallet_of;
    pset_from_value = pset_of;
  };
}

any_reads : (a : Any) → any_of (any_to_value sample_json a) ≡ some a
any_reads a = ground arith

pub sample-IsFaithful : IsFaithful sample
sample-IsFaithful = record {
  as_num-num = λ n fits. refl;
  get_id-request = λ n m key v fits. refl;
  get_method-request = λ n m key v fits. refl;
  get_params-request = λ n m key v fits. refl;
  string_reads = λ s. refl;
  any_reads = any_reads;
  tx_reads = λ t. refl;
  pair_reads = λ p. refl;
  wallet_reads = λ w. refl;
  pset_reads = λ p. refl;
  proposal_reads = λ p. refl;
}
