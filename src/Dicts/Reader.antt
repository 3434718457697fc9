-- ===== src/Dicts/Reader.antt =====
-- What a reader of the submitted JSON takes the signed bytes to be, from the JSON alone: the fields by
-- their names, in the layout of the messages.
use zksync_python.Prelude.{
  ℤ, pos, ◌-ℤ◌, List, [], ◌∷◌, Option, none, some, Result, ok, err, ◌>>=◌, type_error, value_error,
  if◌then◌else◌, Json, null, int, str, arr, nil, cons,
}
use zksync_python.Python.Text.{Text, text, eqb_text}
use zksync_python.Python.Hex.{Bytes}
use zksync_python.Library.{NativeCrypto, hash_orders}
use zksync_python.Serializers.{packed_amount_checked, packed_fee_checked}
use zksync_python.Serializers.Fields.{
  int_to_bytes, serialize_address, serialize_content_hash, serialize_nonce, serialize_ratio_part,
  serialize_timestamp, serialize_token_id,
}
use zksync_python.Encoding.{account_id_field, join, transaction_version}
use zksync_python.Json.{item, lookup}

abbrev pub as_int : Json → Result ℤ
as_int (int z) = ok z
as_int _ = err type_error

abbrev pub as_id : Json → Result (Option ℤ)
as_id null = ok none
as_id (int z) = ok (some z)
as_id _ = err type_error

abbrev pub as_text : Json → Result Text
as_text (str s) = ok s
as_text _ = err type_error

abbrev pub as_pair : Json → Result (Json × Json)
as_pair (arr (cons x (cons y nil))) = ok (x, y)
as_pair _ = err type_error

abbrev int_at : Text → Json → (ℤ → Result Bytes) → Result Bytes
int_at key json write = item json key >>= λ j. as_int j >>= write

abbrev id_at : Text → Json → Result Bytes
id_at key json = item json key >>= λ j. as_id j >>= account_id_field

abbrev text_at : Text → Json → (Text → Result Bytes) → Result Bytes
text_at key json write = item json key >>= λ j. as_text j >>= write

abbrev pair_at : {A : Type 0} → Text → Json → (Json × Json → Result A) → Result A
pair_at key json read = item json key >>= λ j. as_pair j >>= read

-- The first two bytes, for the number of a type.
abbrev start : ℤ → Result Bytes
start type = int_to_bytes (pos 0xff -ℤ type) 1

abbrev version : Result Bytes
version = int_to_bytes transaction_version 1

abbrev validity : Json → List (Result Bytes)
validity json =
    int_at (text "validFrom") json serialize_timestamp
    ∷ int_at (text "validUntil") json serialize_timestamp
    ∷ []

unfoldable pub read_order : Json → Result Bytes
read_order json = join (
    int_to_bytes (pos b'o') 1
    ∷ version
    ∷ id_at (text "accountId") json
    ∷ text_at (text "recipient") json serialize_address
    ∷ int_at (text "nonce") json serialize_nonce
    ∷ int_at (text "tokenSell") json serialize_token_id
    ∷ int_at (text "tokenBuy") json serialize_token_id
    ∷ pair_at (text "ratio") json (λ p. as_int p.0 >>= serialize_ratio_part)
    ∷ pair_at (text "ratio") json (λ p. as_int p.1 >>= serialize_ratio_part)
    ∷ int_at (text "amount") json packed_amount_checked
    ∷ validity json)

abbrev read_change_pub_key : Json → Result Bytes
read_change_pub_key json = join (
    start (pos 7)
    ∷ version
    ∷ id_at (text "accountId") json
    ∷ text_at (text "account") json serialize_address
    ∷ text_at (text "newPkHash") json serialize_address
    ∷ int_at (text "fee_token") json serialize_token_id
    ∷ int_at (text "fee") json packed_fee_checked
    ∷ int_at (text "nonce") json serialize_nonce
    ∷ validity json)

-- A transfer and a withdrawal differ in the type and in how the amount is written.
abbrev read_payment : ℤ → (ℤ → Result Bytes) → Json → Result Bytes
read_payment type write_amount json = join (
    start type
    ∷ version
    ∷ id_at (text "accountId") json
    ∷ text_at (text "from") json serialize_address
    ∷ text_at (text "to") json serialize_address
    ∷ int_at (text "token") json serialize_token_id
    ∷ int_at (text "amount") json write_amount
    ∷ int_at (text "fee") json packed_fee_checked
    ∷ int_at (text "nonce") json serialize_nonce
    ∷ validity json)

abbrev read_forced_exit : Json → Result Bytes
read_forced_exit json = join (
    start (pos 8)
    ∷ version
    ∷ id_at (text "initiatorAccountId") json
    ∷ text_at (text "target") json serialize_address
    ∷ int_at (text "token") json serialize_token_id
    ∷ int_at (text "fee") json packed_fee_checked
    ∷ int_at (text "nonce") json serialize_nonce
    ∷ validity json)

abbrev read_swap : Result NativeCrypto → Json → Result Bytes
read_swap lib json = do
  order_bytes ← pair_at (text "orders") json (λ p. join (read_order p.0 ∷ read_order p.1 ∷ []))
  join (
      start (pos 11)
      ∷ version
      ∷ id_at (text "submitterId") json
      ∷ text_at (text "submitterAddress") json serialize_address
      ∷ int_at (text "nonce") json serialize_nonce
      ∷ (lib >>= λ loaded. hash_orders loaded order_bytes)
      ∷ int_at (text "feeToken") json serialize_token_id
      ∷ int_at (text "fee") json packed_fee_checked
      ∷ pair_at (text "amounts") json (λ p. as_int p.0 >>= packed_amount_checked)
      ∷ pair_at (text "amounts") json (λ p. as_int p.1 >>= packed_amount_checked)
      ∷ [])

abbrev read_mint_nft : Json → Result Bytes
read_mint_nft json = join (
    start (pos 9)
    ∷ version
    ∷ id_at (text "creatorId") json
    ∷ text_at (text "creatorAddress") json serialize_address
    ∷ text_at (text "contentHash") json serialize_content_hash
    ∷ text_at (text "recipient") json serialize_address
    ∷ int_at (text "feeToken") json serialize_token_id
    ∷ int_at (text "fee") json packed_fee_checked
    ∷ int_at (text "nonce") json serialize_nonce
    ∷ [])

abbrev read_withdraw_nft : Json → Result Bytes
read_withdraw_nft json = join (
    start (pos 10)
    ∷ version
    ∷ id_at (text "accountId") json
    ∷ text_at (text "from") json serialize_address
    ∷ text_at (text "to") json serialize_address
    ∷ int_at (text "token") json serialize_token_id
    ∷ int_at (text "feeToken") json serialize_token_id
    ∷ int_at (text "fee") json packed_fee_checked
    ∷ int_at (text "nonce") json serialize_nonce
    ∷ validity json)

abbrev read_by_type : Result NativeCrypto → Text → Json → Result Bytes
read_by_type lib type json =
    if eqb_text type (text "ChangePubKey")
    then read_change_pub_key json
    else if eqb_text type (text "Transfer")
    then read_payment (pos 5) packed_amount_checked json
    else if eqb_text type (text "Withdraw")
    then read_payment (pos 3) (λ amount. int_to_bytes amount 16) json
    else if eqb_text type (text "ForcedExit")
    then read_forced_exit json
    else if eqb_text type (text "Swap")
    then read_swap lib json
    else if eqb_text type (text "MintNFT")
    then read_mint_nft json
    else if eqb_text type (text "WithdrawNFT")
    then read_withdraw_nft json
    else err value_error

unfoldable pub read_message : Result NativeCrypto → Json → Result Bytes
unfolding item lookup read_order
read_message lib json = do
  type ← item json (text "type")
  type ← as_text type
  read_by_type lib type json
