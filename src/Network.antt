-- ===== src/Network.antt =====
-- zksync_sdk/network.py: the servers.
use zksync_python.Python.Text.{Text, text}
use zksync_python.Signers.{ChainId}

pub record Network : Type 0 where
  pub zksync_url : Text
  pub chain_id : ChainId

abbrev pub rinkeby : Network
rinkeby = record {
  zksync_url = text "https://rinkeby-api.zksync.io/jsrpc";
  chain_id = ChainId.rinkeby;
}

abbrev pub ropsten : Network
ropsten = record {
  zksync_url = text "https://ropsten-api.zksync.io/jsrpc";
  chain_id = ChainId.ropsten;
}

abbrev pub mainnet : Network
mainnet = record { zksync_url = text "https://api.zksync.io/jsrpc"; chain_id = ChainId.mainnet }

abbrev pub localhost : Network
localhost = record { zksync_url = text "http://localhost:3030/jsrpc"; chain_id = ChainId.localhost }
