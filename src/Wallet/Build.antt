-- ===== src/Wallet/Build.antt =====
-- zksync_sdk/wallet.py: the `build_…` methods, which make a transaction and sign it twice.
use zksync_python.Prelude.{ℤ, Option, none, some}
use zksync_python.Python.Text.{Text, lower}
use zksync_python.Types.{
  Token, Nft, AnyToken, TxEthSignature, EthAuthData, auth_ecdsa, auth_create2, auth_dict,
  onchain_dict, ecdsa_dict, create2_dict, ChangePubKey, Transfer, Withdraw, ForcedExit, Order, Swap,
  MintNft, WithdrawNft, change_pub_key, transfer, withdraw, forced_exit, swap, mint_nft,
  withdraw_nft,
}
use zksync_python.Python.Text.{text}
use zksync_python.Prelude.{◌++◌}
use zksync_python.Python.Hex.{bytes_hex}
use zksync_python.Encoding.{get_eth_tx_bytes}
use zksync_python.Signers.{tx, sign_tx, pubkey_hash_str}
use zksync_python.Wallet.{Context, Action, ◌>>=◌, pure, lift, request, address, get_account_id}

-- `ChangePubKey.get_auth_data`; a dictionary falls through to None.
unfoldable pub get_auth_data : Option EthAuthData → Text → Option EthAuthData
get_auth_data none signature = some (auth_dict onchain_dict)
get_auth_data (some (auth_ecdsa auth)) signature =
    some (auth_dict (ecdsa_dict signature (text "0x" ++ bytes_hex auth.batch_hash)))
get_auth_data (some (auth_create2 auth)) signature = some (
    auth_dict
      (create2_dict (text "0x" ++ bytes_hex auth.salt_arg) (text "0x" ++ bytes_hex auth.code_hash)))
get_auth_data (some (auth_dict d)) signature = none

module _ (c : Context) where
  -- `if nonce is None: nonce = await …`
  unfoldable pub nonce_or_asked : Option ℤ → Action c ℤ
  unfolding address
  nonce_or_asked none = request c (c.provider.get_account_nonce (address c))
  nonce_or_asked (some nonce) = pure c nonce

  unfoldable pub build_change_pub_key :
      Token → Option EthAuthData → ℤ → Option ℤ → ℤ → ℤ → Action c (ChangePubKey × TxEthSignature)
  build_change_pub_key fee_token eth_auth_data fee nonce valid_from valid_until = do
    nonce ← nonce_or_asked nonce
    account_id ← get_account_id c
    new_pubkey_hash ← lift c (pubkey_hash_str c.zk_signer)
    let unsigned : ChangePubKey = record {
      account_id = account_id;
      account = address c;
      new_pk_hash = new_pubkey_hash;
      token = fee_token;
      fee = fee;
      nonce = nonce;
      valid_from = valid_from;
      valid_until = valid_until;
      eth_auth_data = eth_auth_data;
      eth_signature = none;
      signature = none;
    }
    message ← lift c (get_eth_tx_bytes unsigned)
    let eth_signature = c.eth_signer.sign message
    let authorised : ChangePubKey = record unsigned {
      eth_auth_data = get_auth_data eth_auth_data eth_signature.signature;
    }
    zk_signature ← lift c (sign_tx c.zk_signer (tx (change_pub_key authorised)))
    pure c (record authorised { signature = some zk_signature }, eth_signature)

  unfoldable pub build_forced_exit :
      Text → Token → ℤ → Option ℤ → ℤ → ℤ → Action c (ForcedExit × TxEthSignature)
  build_forced_exit target token fee nonce valid_from valid_until = do
    nonce ← nonce_or_asked nonce
    account_id ← get_account_id c
    let unsigned : ForcedExit = record {
      initiator_account_id = account_id;
      target = target;
      token = token;
      fee = fee;
      nonce = nonce;
      valid_from = valid_from;
      valid_until = valid_until;
      signature = none;
    }
    eth_signature ← lift c (c.eth_signer.sign_tx (tx (forced_exit unsigned)))
    zk_signature ← lift c (sign_tx c.zk_signer (tx (forced_exit unsigned)))
    pure c (record unsigned { signature = some zk_signature }, eth_signature)

  unfoldable pub build_mint_nft :
      Text → Text → Token → ℤ → Option ℤ → Action c (MintNft × TxEthSignature)
  build_mint_nft content_hash recipient token fee nonce = do
    nonce ← nonce_or_asked nonce
    account_id ← get_account_id c
    let unsigned : MintNft = record {
      creator_id = account_id;
      creator_address = address c;
      content_hash = content_hash;
      recipient = recipient;
      fee = fee;
      fee_token = token;
      nonce = nonce;
      signature = none;
    }
    eth_signature ← lift c (c.eth_signer.sign_tx (tx (mint_nft unsigned)))
    zk_signature ← lift c (sign_tx c.zk_signer (tx (mint_nft unsigned)))
    pure c (record unsigned { signature = some zk_signature }, eth_signature)

  unfoldable pub build_withdraw_nft :
      Text → Nft → Token → ℤ → Option ℤ → ℤ → ℤ → Action c (WithdrawNft × TxEthSignature)
  build_withdraw_nft to_address nft_token fee_token fee nonce valid_from valid_until = do
    nonce ← nonce_or_asked nonce
    account_id ← get_account_id c
    let unsigned : WithdrawNft = record {
      account_id = account_id;
      from_address = address c;
      to_address = to_address;
      fee_token = fee_token;
      fee = fee;
      nonce = nonce;
      valid_from = valid_from;
      valid_until = valid_until;
      token_id = nft_token.token.id;
      signature = none;
    }
    eth_signature ← lift c (c.eth_signer.sign_tx (tx (withdraw_nft unsigned)))
    zk_signature ← lift c (sign_tx c.zk_signer (tx (withdraw_nft unsigned)))
    pure c (record unsigned { signature = some zk_signature }, eth_signature)

  unfoldable pub build_transfer :
      Text → ℤ → AnyToken → ℤ → Option ℤ → ℤ → ℤ → Action c (Transfer × TxEthSignature)
  build_transfer to amount token fee nonce valid_from valid_until = do
    nonce ← nonce_or_asked nonce
    account_id ← get_account_id c
    let unsigned : Transfer = record {
      account_id = account_id;
      from_address = address c;
      to_address = lower to;
      token = token;
      amount = amount;
      fee = fee;
      nonce = nonce;
      valid_from = valid_from;
      valid_until = valid_until;
      signature = none;
    }
    eth_signature ← lift c (c.eth_signer.sign_tx (tx (transfer unsigned)))
    zk_signature ← lift c (sign_tx c.zk_signer (tx (transfer unsigned)))
    pure c (record unsigned { signature = some zk_signature }, eth_signature)

  unfoldable pub build_withdraw :
      Text → ℤ → Token → ℤ → Option ℤ → ℤ → ℤ → Action c (Withdraw × TxEthSignature)
  build_withdraw eth_address amount token fee nonce valid_from valid_until = do
    nonce ← nonce_or_asked nonce
    account_id ← get_account_id c
    let unsigned : Withdraw = record {
      account_id = account_id;
      from_address = address c;
      to_address = eth_address;
      amount = amount;
      fee = fee;
      nonce = nonce;
      valid_from = valid_from;
      valid_until = valid_until;
      token = token;
      signature = none;
    }
    eth_signature ← lift c (c.eth_signer.sign_tx (tx (withdraw unsigned)))
    zk_signature ← lift c (sign_tx c.zk_signer (tx (withdraw unsigned)))
    pure c (record unsigned { signature = some zk_signature }, eth_signature)

  unfoldable pub build_swap :
      Order × Order → Token → ℤ × ℤ → ℤ → Option ℤ → Action c (Swap × TxEthSignature)
  build_swap orders fee_token amounts fee nonce = do
    nonce ← nonce_or_asked nonce
    account_id ← get_account_id c
    let unsigned : Swap = record {
      submitter_id = account_id;
      submitter_address = address c;
      amounts = amounts;
      orders = orders;
      fee_token = fee_token;
      fee = fee;
      nonce = nonce;
      signature = none;
    }
    eth_signature ← lift c (c.eth_signer.sign_tx (tx (swap unsigned)))
    zk_signature ← lift c (sign_tx c.zk_signer (tx (swap unsigned)))
    pure c (record unsigned { signature = some zk_signature }, eth_signature)
