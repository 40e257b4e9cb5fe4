-- ===== src/Network.antt =====
-- The networks of src/lib.rs and what is fixed for each.
use nexus_relay.Prelude.{ℕ}
use nexus_relay.External.Packages.{Packages}

pub data Network : Type 0 where
  liquid liquid_testnet elements_regtest : Network

-- `elements::bitcoin::NetworkKind`
pub data NetworkKind : Type 0 where
  main test : NetworkKind

unfoldable pub as_network_kind : Network → NetworkKind
as_network_kind liquid = main
as_network_kind _ = test

unfoldable pub default_elements_listen_port : Network → ℕ
default_elements_listen_port liquid = 7041
default_elements_listen_port liquid_testnet = 7039
default_elements_listen_port elements_regtest = 7043

unfoldable pub default_listen_port : Network → ℕ
default_listen_port liquid = 3100
default_listen_port liquid_testnet = 3101
default_listen_port elements_regtest = 3102

module _ (pk : Packages) where
  unfoldable pub address_params : Network → pk.AddressParams
  address_params liquid = pk.liquid_params
  address_params liquid_testnet = pk.liquid_testnet_params
  address_params elements_regtest = pk.elements_params
