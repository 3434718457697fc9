-- ===== src/Wallet/Refusing.antt =====
-- A wallet whose account the server does not know.
use zksync_python.Prelude.{
  null, str, array, ℤ, ◌≡◌, [], ◌∷◌, Option, ok, err, account_does_not_exist,
}
use zksync_python.Python.Text.{Text, text}
use zksync_python.Python.Decimal.{Decimal}
use zksync_python.Python.Effects.Runs.{bind-err}
use zksync_python.Tokens.{TokenLike}
use zksync_python.Network.{Network}
use zksync_python.Transport.{HttpClient, HttpResponse, create_request}
use zksync_python.Transport.Answers.{IsResult, http_request_answers}
use zksync_python.Provider.V01.{Models, v01_get_account_nonce}
use zksync_python.Provider.V01.Accounts.{get_account_nonce_unknown}
use zksync_python.Transport.{http_transport}
use zksync_python.Signers.{EthereumSigner, ZkSyncSigner}
use zksync_python.Wallet.{WalletState, address}
use zksync_python.Wallet.Send.{transfer}
use zksync_python.Wallet.Posting.{http_wallet}
use zksync_python.Wallet.Runs.{request_ran}

module _ (client : HttpClient) (network : Network) (m : Models) (eth_signer : EthereumSigner)
    (zk_signer : ZkSyncSigner) where
  -- Where the server answers the request "account_info" for the wallet's address with null, a
  -- transfer raises AccountDoesNotExist with that address. It has posted this one request and no
  -- other, and the wallet is as it was.
  pub transfer_unknown_account :
      (to : Text) (amount : Decimal) (name : TokenLike) (fee : Option Decimal)
      (valid_from valid_until : ℤ) (w : WalletState) (world world' : client.World)
      (response : HttpResponse)
      → client.post network.zksync_url
          (create_request (text "account_info") (array (str eth_signer.address ∷ [])))
          world
        ≡ (ok response, world')
      → IsResult response null
      → transfer
          (http_wallet client network m eth_signer zk_signer)
          to
          amount
          name
          fee
          valid_from
          valid_until
          (w, world)
        ≡ (err (account_does_not_exist eth_signer.address), (w, world'))
  unfolding transfer address
  transfer_unknown_account to amount name fee valid_from valid_until w world world' response posted
        is_null =
      let asked =
        (http_request_answers client network (text "account_info")
            (array (str eth_signer.address ∷ [])) null world world').1
          (response, posted, is_null) in
      bind-err _ _ (
        request_ran (http_wallet client network m eth_signer zk_signer)
          (v01_get_account_nonce (http_transport client network) m eth_signer.address) w
          (get_account_nonce_unknown (http_transport client network) m eth_signer.address world
            world' asked))
