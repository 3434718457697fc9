-- ===== src/Encoding/Determines.antt =====
-- A message that is signed determines what it says.
use zksync_python.Prelude.{ℕ, ◌≡◌, sym, ◌∙◌, List, ℤ, Result, ok}
use zksync_python.Python.Hex.{Bytes}
use zksync_python.Library.{NativeCrypto}
use zksync_python.Serializers.{packed_amount_checked, packed_fee_checked}
use zksync_python.Serializers.Amounts.{packed_amount_checked-injective}
use zksync_python.Serializers.Fees.{packed_fee_checked-injective}
use zksync_python.Serializers.Fields.{serialize_address}
use zksync_python.Serializers.Fields.Numbers.{
  IsField, int_to_bytes-IsField, serialize_nonce-IsField, serialize_timestamp-IsField,
  serialize_token_id-IsField,
}
use zksync_python.Types.{
  base, ChangePubKey, Transfer, Withdraw, ForcedExit, WithdrawNft, change_pub_key, transfer,
  withdraw, forced_exit, withdraw_nft,
}
use zksync_python.Encoding.{
  transfer_fields, withdraw_fields, forced_exit_fields, change_pub_key_fields, withdraw_nft_fields,
  encoded_message,
}
use zksync_python.Encoding.Layout.{SameField, join-SameFields}
use zksync_python.Encoding.Widths.{
  transfer_widths, withdraw_widths, forced_exit_widths, change_pub_key_widths, withdraw_nft_widths,
  transfer_fields-HasWidths, withdraw_fields-HasWidths, forced_exit_fields-HasWidths,
  change_pub_key_fields-HasWidths, withdraw_nft_fields-HasWidths, account_id_field-IsField,
}

pub from_field {ℓ} :
    {A : Type ℓ} {serialize : A → Result Bytes} {width : ℕ} (f : IsField serialize width) {a b : A}
    → SameField (serialize a) (serialize b)
    → a ≡ b
from_field f {a} {b} (bytes, ha, hb) = f.injective a b bytes ha hb

pub amounts_same : {y z : ℤ} → SameField (packed_amount_checked y) (packed_amount_checked z) → y ≡ z
amounts_same {y} {z} (bytes, hy, hz) = packed_amount_checked-injective y z bytes hy hz

pub fees_same : {y z : ℤ} → SameField (packed_fee_checked y) (packed_fee_checked z) → y ≡ z
fees_same {y} {z} (bytes, hy, hz) = packed_fee_checked-injective y z bytes hy hz

-- The addresses are equal as bytes.
abbrev pub SameAddress : List ℕ → List ℕ → Type 0
SameAddress a b = serialize_address a ≡ serialize_address b

pub addresses_same :
    (a b : List ℕ) → SameField (serialize_address a) (serialize_address b) → SameAddress a b
addresses_same a b (bytes, ha, hb) = ha ∙ sym hb

-- Two transfers with the same message agree in the account id, the sender's and the recipient's
-- address as bytes, the token id, the amount, the fee, the nonce and both timestamps.
pub transfer-encoded_message-injective :
    (lib : Result NativeCrypto) (s t : Transfer) (bytes : Bytes)
    → encoded_message lib (transfer s) ≡ ok bytes
    → encoded_message lib (transfer t) ≡ ok bytes
    → (s.account_id ≡ t.account_id)
      × SameAddress s.from_address t.from_address
      × SameAddress s.to_address t.to_address
      × ((base s.token).id ≡ (base t.token).id)
      × (s.amount ≡ t.amount)
      × (s.fee ≡ t.fee)
      × (s.nonce ≡ t.nonce)
      × (s.valid_from ≡ t.valid_from)
      × (s.valid_until ≡ t.valid_until)
unfolding encoded_message
transfer-encoded_message-injective lib s t bytes hs ht =
    let (
      _,
      (_, (account, (sender, (recipient, (token, (amount, (fee, (nonce, (from, (until, _)))))))))),
    ) =
      join-SameFields transfer_widths (transfer_fields s) (transfer_fields t) bytes
        (transfer_fields-HasWidths s) (transfer_fields-HasWidths t) hs ht in
    (
      from_field account_id_field-IsField account,
      addresses_same _ _ sender,
      addresses_same _ _ recipient,
      from_field serialize_token_id-IsField token,
      amounts_same amount,
      fees_same fee,
      from_field serialize_nonce-IsField nonce,
      from_field serialize_timestamp-IsField from,
      from_field serialize_timestamp-IsField until,
    )

-- Two withdrawals with the same message agree in the account id, the sender's and the recipient's
-- address as bytes, the token id, the amount, the fee, the nonce and both timestamps.
withdraw-encoded_message-injective :
    (lib : Result NativeCrypto) (s t : Withdraw) (bytes : Bytes)
    → encoded_message lib (withdraw s) ≡ ok bytes
    → encoded_message lib (withdraw t) ≡ ok bytes
    → (s.account_id ≡ t.account_id)
      × SameAddress s.from_address t.from_address
      × SameAddress s.to_address t.to_address
      × (s.token.id ≡ t.token.id)
      × (s.amount ≡ t.amount)
      × (s.fee ≡ t.fee)
      × (s.nonce ≡ t.nonce)
      × (s.valid_from ≡ t.valid_from)
      × (s.valid_until ≡ t.valid_until)
unfolding encoded_message
withdraw-encoded_message-injective lib s t bytes hs ht =
    let (
      _,
      (_, (account, (sender, (recipient, (token, (amount, (fee, (nonce, (from, (until, _)))))))))),
    ) =
      join-SameFields withdraw_widths (withdraw_fields s) (withdraw_fields t) bytes
        (withdraw_fields-HasWidths s) (withdraw_fields-HasWidths t) hs ht in
    (
      from_field account_id_field-IsField account,
      addresses_same _ _ sender,
      addresses_same _ _ recipient,
      from_field serialize_token_id-IsField token,
      from_field (int_to_bytes-IsField 16) amount,
      fees_same fee,
      from_field serialize_nonce-IsField nonce,
      from_field serialize_timestamp-IsField from,
      from_field serialize_timestamp-IsField until,
    )

-- Two forced exits with the same message agree in the initiator's account id, the target's address
-- as bytes, the token id, the fee, the nonce and both timestamps.
forced_exit-encoded_message-injective :
    (lib : Result NativeCrypto) (s t : ForcedExit) (bytes : Bytes)
    → encoded_message lib (forced_exit s) ≡ ok bytes
    → encoded_message lib (forced_exit t) ≡ ok bytes
    → (s.initiator_account_id ≡ t.initiator_account_id)
      × SameAddress s.target t.target
      × (s.token.id ≡ t.token.id)
      × (s.fee ≡ t.fee)
      × (s.nonce ≡ t.nonce)
      × (s.valid_from ≡ t.valid_from)
      × (s.valid_until ≡ t.valid_until)
unfolding encoded_message
forced_exit-encoded_message-injective lib s t bytes hs ht =
    let (_, (_, (account, (recipient, (token, (fee, (nonce, (from, (until, _))))))))) =
      join-SameFields forced_exit_widths (forced_exit_fields s) (forced_exit_fields t) bytes
        (forced_exit_fields-HasWidths s) (forced_exit_fields-HasWidths t) hs ht in
    (
      from_field account_id_field-IsField account,
      addresses_same _ _ recipient,
      from_field serialize_token_id-IsField token,
      fees_same fee,
      from_field serialize_nonce-IsField nonce,
      from_field serialize_timestamp-IsField from,
      from_field serialize_timestamp-IsField until,
    )

-- Two ChangePubKey transactions with the same message agree in the account id, the account's address
-- and the new key's hash as bytes, the token id, the fee, the nonce and both timestamps.
change_pub_key-encoded_message-injective :
    (lib : Result NativeCrypto) (s t : ChangePubKey) (bytes : Bytes)
    → encoded_message lib (change_pub_key s) ≡ ok bytes
    → encoded_message lib (change_pub_key t) ≡ ok bytes
    → (s.account_id ≡ t.account_id)
      × SameAddress s.account t.account
      × SameAddress s.new_pk_hash t.new_pk_hash
      × (s.token.id ≡ t.token.id)
      × (s.fee ≡ t.fee)
      × (s.nonce ≡ t.nonce)
      × (s.valid_from ≡ t.valid_from)
      × (s.valid_until ≡ t.valid_until)
unfolding encoded_message
change_pub_key-encoded_message-injective lib s t bytes hs ht =
    let (_, (_, (account, (sender, (recipient, (token, (fee, (nonce, (from, (until, _)))))))))) =
      join-SameFields change_pub_key_widths (change_pub_key_fields s) (change_pub_key_fields t)
        bytes (change_pub_key_fields-HasWidths s) (change_pub_key_fields-HasWidths t) hs ht in
    (
      from_field account_id_field-IsField account,
      addresses_same _ _ sender,
      addresses_same _ _ recipient,
      from_field serialize_token_id-IsField token,
      fees_same fee,
      from_field serialize_nonce-IsField nonce,
      from_field serialize_timestamp-IsField from,
      from_field serialize_timestamp-IsField until,
    )

-- Two WithdrawNFT transactions with the same message agree in the account id, the sender's and the
-- recipient's address as bytes, the NFT's id, the fee token's id, the fee, the nonce and both
-- timestamps.
withdraw_nft-encoded_message-injective :
    (lib : Result NativeCrypto) (s t : WithdrawNft) (bytes : Bytes)
    → encoded_message lib (withdraw_nft s) ≡ ok bytes
    → encoded_message lib (withdraw_nft t) ≡ ok bytes
    → (s.account_id ≡ t.account_id)
      × SameAddress s.from_address t.from_address
      × SameAddress s.to_address t.to_address
      × (s.token_id ≡ t.token_id)
      × (s.fee_token.id ≡ t.fee_token.id)
      × (s.fee ≡ t.fee)
      × (s.nonce ≡ t.nonce)
      × (s.valid_from ≡ t.valid_from)
      × (s.valid_until ≡ t.valid_until)
unfolding encoded_message
withdraw_nft-encoded_message-injective lib s t bytes hs ht =
    let (
      _,
      (_, (account, (sender, (recipient, (item, (token, (fee, (nonce, (from, (until, _)))))))))),
    ) =
      join-SameFields withdraw_nft_widths (withdraw_nft_fields s) (withdraw_nft_fields t) bytes
        (withdraw_nft_fields-HasWidths s) (withdraw_nft_fields-HasWidths t) hs ht in
    (
      from_field account_id_field-IsField account,
      addresses_same _ _ sender,
      addresses_same _ _ recipient,
      from_field serialize_token_id-IsField item,
      from_field serialize_token_id-IsField token,
      fees_same fee,
      from_field serialize_nonce-IsField nonce,
      from_field serialize_timestamp-IsField from,
      from_field serialize_timestamp-IsField until,
    )
