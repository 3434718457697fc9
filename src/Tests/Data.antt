-- ===== src/Tests/Data.antt =====
-- The transactions of tests/test_signer.py, and a native library, a server and an Ethereum account
-- with fixed answers.
use zksync_python.Prelude.{ℕ, ◌^◌, ◌-◌, ℤ, pos, [], ◌∷◌, none, some, Result, ok, err, replicate}
use zksync_python.Python.Text.{Text, text}
use zksync_python.Python.Hex.{Bytes}
use zksync_python.Library.{NativeCrypto}
use zksync_python.Types.{
  Token, plain, ChangePubKey, Transfer, Withdraw, ForcedExit, Order, Swap, MintNft, WithdrawNft,
}
use zksync_python.Tokens.{eth}

abbrev pub sender : Text
sender = text "0xedE35562d3555e61120a151B3c8e8e91d83a378a"

abbrev pub recipient : Text
recipient = text "0x19aa2ed8712072e918632259780e587698ef58df"

abbrev pub far : ℤ
far = pos (2 ^ 32 - 1)

abbrev pub native : NativeCrypto
native = record {
  zks_crypto_private_key_from_seed = λ seed. seed;
  zks_crypto_private_key_to_public_key = λ key. key;
  zks_crypto_public_key_to_pubkey_hash = λ key. key;
  zks_crypto_sign_musig = λ key message. key;
  rescue_hash_orders = λ orders. replicate 31 7;
}

abbrev pub a_transfer : Transfer
a_transfer = record {
  account_id = some (pos 44);
  from_address = sender;
  to_address = recipient;
  token = plain eth;
  amount = pos 1000000000000;
  fee = pos 1000000;
  nonce = pos 12;
  valid_from = pos 0;
  valid_until = far;
  signature = none;
}

abbrev pub a_withdraw : Withdraw
a_withdraw = record {
  account_id = some (pos 44);
  from_address = sender;
  to_address = recipient;
  amount = pos 1000000000000;
  fee = pos 1000000;
  nonce = pos 12;
  valid_from = pos 0;
  valid_until = far;
  token = eth;
  signature = none;
}

abbrev pub a_forced_exit : ForcedExit
a_forced_exit = record {
  initiator_account_id = some (pos 44);
  target = recipient;
  token = eth;
  fee = pos 1000000;
  nonce = pos 12;
  valid_from = pos 0;
  valid_until = far;
  signature = none;
}

abbrev pub a_change_pub_key : ChangePubKey
a_change_pub_key = record {
  account_id = some (pos 55);
  account = sender;
  new_pk_hash = text "sync:18e8446d7748f2de52b28345bdbc76160e6b35eb";
  token = eth;
  fee = pos 1000000000;
  nonce = pos 13;
  valid_from = pos 0;
  valid_until = far;
  eth_auth_data = none;
  eth_signature = none;
  signature = none;
}

abbrev pub a_withdraw_nft : WithdrawNft
a_withdraw_nft = record {
  account_id = some (pos 44);
  from_address = sender;
  to_address = recipient;
  fee_token = eth;
  fee = pos 1000000;
  nonce = pos 12;
  valid_from = pos 0;
  valid_until = far;
  token_id = pos 100000;
  signature = none;
}

abbrev token_with_id : ℕ → Token
token_with_id id = record { address = []; id = pos id; symbol = []; decimals = 0 }

abbrev pub an_order : Order
an_order = record {
  account_id = some (pos 6);
  recipient = text "0x823b6a996cea19e0c41e250b20e2e804ea72ccdf";
  nonce = pos 18;
  token_sell = eth;
  token_buy = token_with_id 2;
  amount = pos 1000000;
  ratio = record { numerator = pos 1; denominator = pos 2 };
  valid_from = pos 0;
  valid_until = far;
  signature = none;
  eth_signature_field = none;
  eth_signature = none;
}

abbrev pub another_order : Order
another_order = record an_order {
  account_id = some (pos 44);
  recipient = text "0x63adbb48d1bc2cf54562910ce54b7ca06b87f319";
  nonce = pos 101;
  token_sell = token_with_id 2;
  token_buy = token_with_id 1;
  ratio = record { numerator = pos 3; denominator = pos 1 };
  amount = pos 2500000;
}

abbrev pub a_swap : Swap
a_swap = record {
  submitter_id = some (pos 5);
  submitter_address = sender;
  amounts = (pos 1000000, pos 2500000);
  orders = (an_order, another_order);
  fee_token = token_with_id 3;
  fee = pos 123;
  nonce = pos 1;
  signature = none;
}

abbrev pub transfer_bytes : Bytes
transfer_bytes =
    0xfa ∷ 0x01 ∷ 0x00 ∷ 0x00 ∷ 0x00 ∷ 0x2c ∷ 0xed ∷ 0xe3 ∷ 0x55 ∷ 0x62 ∷ 0xd3 ∷ 0x55 ∷ 0x5e ∷ 0x61
    ∷ 0x12 ∷ 0x0a ∷ 0x15 ∷ 0x1b ∷ 0x3c ∷ 0x8e ∷ 0x8e ∷ 0x91 ∷ 0xd8 ∷ 0x3a ∷ 0x37 ∷ 0x8a ∷ 0x19
    ∷ 0xaa ∷ 0x2e ∷ 0xd8 ∷ 0x71 ∷ 0x20 ∷ 0x72 ∷ 0xe9 ∷ 0x18 ∷ 0x63 ∷ 0x22 ∷ 0x59 ∷ 0x78 ∷ 0x0e
    ∷ 0x58 ∷ 0x76 ∷ 0x98 ∷ 0xef ∷ 0x58 ∷ 0xdf ∷ 0x00 ∷ 0x00 ∷ 0x00 ∷ 0x00 ∷ 0x4a ∷ 0x81 ∷ 0x7c
    ∷ 0x80 ∷ 0x02 ∷ 0x7d ∷ 0x03 ∷ 0x00 ∷ 0x00 ∷ 0x00 ∷ 0x0c ∷ 0x00 ∷ 0x00 ∷ 0x00 ∷ 0x00 ∷ 0x00
    ∷ 0x00 ∷ 0x00 ∷ 0x00 ∷ 0x00 ∷ 0x00 ∷ 0x00 ∷ 0x00 ∷ 0xff ∷ 0xff ∷ 0xff ∷ 0xff ∷ []

abbrev pub withdraw_bytes : Bytes
withdraw_bytes =
    0xfc ∷ 0x01 ∷ 0x00 ∷ 0x00 ∷ 0x00 ∷ 0x2c ∷ 0xed ∷ 0xe3 ∷ 0x55 ∷ 0x62 ∷ 0xd3 ∷ 0x55 ∷ 0x5e ∷ 0x61
    ∷ 0x12 ∷ 0x0a ∷ 0x15 ∷ 0x1b ∷ 0x3c ∷ 0x8e ∷ 0x8e ∷ 0x91 ∷ 0xd8 ∷ 0x3a ∷ 0x37 ∷ 0x8a ∷ 0x19
    ∷ 0xaa ∷ 0x2e ∷ 0xd8 ∷ 0x71 ∷ 0x20 ∷ 0x72 ∷ 0xe9 ∷ 0x18 ∷ 0x63 ∷ 0x22 ∷ 0x59 ∷ 0x78 ∷ 0x0e
    ∷ 0x58 ∷ 0x76 ∷ 0x98 ∷ 0xef ∷ 0x58 ∷ 0xdf ∷ 0x00 ∷ 0x00 ∷ 0x00 ∷ 0x00 ∷ 0x00 ∷ 0x00 ∷ 0x00
    ∷ 0x00 ∷ 0x00 ∷ 0x00 ∷ 0x00 ∷ 0x00 ∷ 0x00 ∷ 0x00 ∷ 0x00 ∷ 0xe8 ∷ 0xd4 ∷ 0xa5 ∷ 0x10 ∷ 0x00
    ∷ 0x7d ∷ 0x03 ∷ 0x00 ∷ 0x00 ∷ 0x00 ∷ 0x0c ∷ 0x00 ∷ 0x00 ∷ 0x00 ∷ 0x00 ∷ 0x00 ∷ 0x00 ∷ 0x00
    ∷ 0x00 ∷ 0x00 ∷ 0x00 ∷ 0x00 ∷ 0x00 ∷ 0xff ∷ 0xff ∷ 0xff ∷ 0xff ∷ []

abbrev pub forced_exit_bytes : Bytes
forced_exit_bytes =
    0xf7 ∷ 0x01 ∷ 0x00 ∷ 0x00 ∷ 0x00 ∷ 0x2c ∷ 0x19 ∷ 0xaa ∷ 0x2e ∷ 0xd8 ∷ 0x71 ∷ 0x20 ∷ 0x72 ∷ 0xe9
    ∷ 0x18 ∷ 0x63 ∷ 0x22 ∷ 0x59 ∷ 0x78 ∷ 0x0e ∷ 0x58 ∷ 0x76 ∷ 0x98 ∷ 0xef ∷ 0x58 ∷ 0xdf ∷ 0x00
    ∷ 0x00 ∷ 0x00 ∷ 0x00 ∷ 0x7d ∷ 0x03 ∷ 0x00 ∷ 0x00 ∷ 0x00 ∷ 0x0c ∷ 0x00 ∷ 0x00 ∷ 0x00 ∷ 0x00
    ∷ 0x00 ∷ 0x00 ∷ 0x00 ∷ 0x00 ∷ 0x00 ∷ 0x00 ∷ 0x00 ∷ 0x00 ∷ 0xff ∷ 0xff ∷ 0xff ∷ 0xff ∷ []

abbrev pub order_bytes : Bytes
order_bytes =
    0x6f ∷ 0x01 ∷ 0x00 ∷ 0x00 ∷ 0x00 ∷ 0x06 ∷ 0x82 ∷ 0x3b ∷ 0x6a ∷ 0x99 ∷ 0x6c ∷ 0xea ∷ 0x19 ∷ 0xe0
    ∷ 0xc4 ∷ 0x1e ∷ 0x25 ∷ 0x0b ∷ 0x20 ∷ 0xe2 ∷ 0xe8 ∷ 0x04 ∷ 0xea ∷ 0x72 ∷ 0xcc ∷ 0xdf ∷ 0x00
    ∷ 0x00 ∷ 0x00 ∷ 0x12 ∷ 0x00 ∷ 0x00 ∷ 0x00 ∷ 0x00 ∷ 0x00 ∷ 0x00 ∷ 0x00 ∷ 0x02 ∷ 0x00 ∷ 0x00
    ∷ 0x00 ∷ 0x00 ∷ 0x00 ∷ 0x00 ∷ 0x00 ∷ 0x00 ∷ 0x00 ∷ 0x00 ∷ 0x00 ∷ 0x00 ∷ 0x00 ∷ 0x00 ∷ 0x01
    ∷ 0x00 ∷ 0x00 ∷ 0x00 ∷ 0x00 ∷ 0x00 ∷ 0x00 ∷ 0x00 ∷ 0x00 ∷ 0x00 ∷ 0x00 ∷ 0x00 ∷ 0x00 ∷ 0x00
    ∷ 0x00 ∷ 0x02 ∷ 0x00 ∷ 0x01 ∷ 0xe8 ∷ 0x48 ∷ 0x00 ∷ 0x00 ∷ 0x00 ∷ 0x00 ∷ 0x00 ∷ 0x00 ∷ 0x00
    ∷ 0x00 ∷ 0x00 ∷ 0x00 ∷ 0x00 ∷ 0x00 ∷ 0x00 ∷ 0xff ∷ 0xff ∷ 0xff ∷ 0xff ∷ []

abbrev pub withdraw_nft_bytes : Bytes
withdraw_nft_bytes =
    0xf5 ∷ 0x01 ∷ 0x00 ∷ 0x00 ∷ 0x00 ∷ 0x2c ∷ 0xed ∷ 0xe3 ∷ 0x55 ∷ 0x62 ∷ 0xd3 ∷ 0x55 ∷ 0x5e ∷ 0x61
    ∷ 0x12 ∷ 0x0a ∷ 0x15 ∷ 0x1b ∷ 0x3c ∷ 0x8e ∷ 0x8e ∷ 0x91 ∷ 0xd8 ∷ 0x3a ∷ 0x37 ∷ 0x8a ∷ 0x19
    ∷ 0xaa ∷ 0x2e ∷ 0xd8 ∷ 0x71 ∷ 0x20 ∷ 0x72 ∷ 0xe9 ∷ 0x18 ∷ 0x63 ∷ 0x22 ∷ 0x59 ∷ 0x78 ∷ 0x0e
    ∷ 0x58 ∷ 0x76 ∷ 0x98 ∷ 0xef ∷ 0x58 ∷ 0xdf ∷ 0x00 ∷ 0x01 ∷ 0x86 ∷ 0xa0 ∷ 0x00 ∷ 0x00 ∷ 0x00
    ∷ 0x00 ∷ 0x7d ∷ 0x03 ∷ 0x00 ∷ 0x00 ∷ 0x00 ∷ 0x0c ∷ 0x00 ∷ 0x00 ∷ 0x00 ∷ 0x00 ∷ 0x00 ∷ 0x00
    ∷ 0x00 ∷ 0x00 ∷ 0x00 ∷ 0x00 ∷ 0x00 ∷ 0x00 ∷ 0xff ∷ 0xff ∷ 0xff ∷ 0xff ∷ []

abbrev pub mint_nft_bytes : Bytes
mint_nft_bytes =
    0xf6 ∷ 0x01 ∷ 0x00 ∷ 0x00 ∷ 0x00 ∷ 0x2c ∷ 0xed ∷ 0xe3 ∷ 0x55 ∷ 0x62 ∷ 0xd3 ∷ 0x55 ∷ 0x5e ∷ 0x61
    ∷ 0x12 ∷ 0x0a ∷ 0x15 ∷ 0x1b ∷ 0x3c ∷ 0x8e ∷ 0x8e ∷ 0x91 ∷ 0xd8 ∷ 0x3a ∷ 0x37 ∷ 0x8a ∷ 0x00
    ∷ 0x00 ∷ 0x00 ∷ 0x00 ∷ 0x00 ∷ 0x00 ∷ 0x00 ∷ 0x00 ∷ 0x00 ∷ 0x00 ∷ 0x00 ∷ 0x00 ∷ 0x00 ∷ 0x00
    ∷ 0x00 ∷ 0x00 ∷ 0x00 ∷ 0x00 ∷ 0x00 ∷ 0x00 ∷ 0x00 ∷ 0x00 ∷ 0x00 ∷ 0x00 ∷ 0x00 ∷ 0x00 ∷ 0x00
    ∷ 0x00 ∷ 0x00 ∷ 0x00 ∷ 0x01 ∷ 0x23 ∷ 0x19 ∷ 0xaa ∷ 0x2e ∷ 0xd8 ∷ 0x71 ∷ 0x20 ∷ 0x72 ∷ 0xe9
    ∷ 0x18 ∷ 0x63 ∷ 0x22 ∷ 0x59 ∷ 0x78 ∷ 0x0e ∷ 0x58 ∷ 0x76 ∷ 0x98 ∷ 0xef ∷ 0x58 ∷ 0xdf ∷ 0x00
    ∷ 0x00 ∷ 0x00 ∷ 0x00 ∷ 0x7d ∷ 0x03 ∷ 0x00 ∷ 0x00 ∷ 0x00 ∷ 0x0c ∷ []

abbrev pub a_mint_nft : MintNft
a_mint_nft = record {
  creator_id = some (pos 44);
  creator_address = sender;
  content_hash = text "0000000000000000000000000000000000000000000000000000000000000123";
  recipient = recipient;
  fee = pos 1000000;
  fee_token = eth;
  nonce = pos 12;
  signature = none;
}

-- What a run returned, where it is too long to write.
abbrev pub returned : Result Bytes → Bytes
returned (ok bytes) = bytes
returned (err e) = []
