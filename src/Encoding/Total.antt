-- ===== src/Encoding/Total.antt =====
-- A transfer with every field in its range has a message.
use zksync_python.Prelude.{
  ℕ, ◌<◌, ◌≤◌, ◌^◌, ◌≡◌, refl, ap, ◌∙◌, List, [], ◌∷◌, ◌++◌, pos, some, Result, ok, arith, ltb, leb,
  lt→ltb, if◌then◌else◌, true,
}
use zksync_python.Python.Hex.{Bytes, to_bytes}
use zksync_python.Python.Digits.{fixed_digits}
use zksync_python.Library.{NativeCrypto}
use zksync_python.Serializers.Amounts.{IsAmount, packed_amount_checked_packable}
use zksync_python.Serializers.Fees.{IsFee, packed_fee_checked_packable}
use zksync_python.Serializers.Fields.{
  int_to_bytes, serialize_address, serialize_nonce, serialize_timestamp, serialize_token_id,
}
use zksync_python.Serializers.Fields.Numbers.{number_fields_lem}
use zksync_python.Types.{base, Transfer, transfer}
use zksync_python.Encoding.{
  join, transfer_fields, encoded_message, type_field, tx_type, account_id_field,
  transaction_version,
}
use zksync_python.Serializers.{packed_amount_checked, packed_fee_checked}

abbrev pub IsOk : Result Bytes → Type 0
IsOk r = (bytes : Bytes) × (r ≡ ok bytes)

abbrev AllOk : List (Result Bytes) → Type 0
AllOk [] = Unit
AllOk (r ∷ rs) = IsOk r × AllOk rs

join-IsOk : (fields : List (Result Bytes)) → AllOk fields → IsOk (join fields)
join-IsOk [] h = ([], refl)
join-IsOk (r ∷ rs) ((front, run), h) =
    let (rest, more) = join-IsOk rs h in (front ++ rest, rw (run, more) refl)

-- Every field is in its range, the amounts are numbers of the packed formats, and both addresses are
-- addresses.
pub record IsSendable (t : Transfer) : Type 0 where
  pub id : ℕ
  pub is_id : t.account_id ≡ some (pos id)
  pub id_fits : id ≤ 2 ^ 24
  pub sender : IsOk (serialize_address t.from_address)
  pub recipient : IsOk (serialize_address t.to_address)
  pub token : ℕ
  pub is_token : (base t.token).id ≡ pos token
  pub token_fits : token < 2 ^ 32
  pub amount : ℕ
  pub is_amount : t.amount ≡ pos amount
  pub amount_fits : IsAmount amount
  pub fee : ℕ
  pub is_fee : t.fee ≡ pos fee
  pub fee_fits : IsFee fee
  pub nonce : ℕ
  pub is_nonce : t.nonce ≡ pos nonce
  pub nonce_fits : nonce < 2 ^ 32
  pub start : ℕ
  pub is_start : t.valid_from ≡ pos start
  pub start_fits : start < 2 ^ 32
  pub stop : ℕ
  pub is_stop : t.valid_until ≡ pos stop
  pub stop_fits : stop < 2 ^ 32

chosen-IsOk :
    (r : Result Bytes) (n : ℕ) (bytes : Bytes) (other : Result Bytes)
    → n < 2 ^ 32
    → r ≡ (if ltb n (2 ^ 32) then ok bytes else other)
    → IsOk r
chosen-IsOk r n bytes other h same = (bytes, same ∙ rw (lt→ltb n (2 ^ 32) h) refl)

account-IsOk : (n : ℕ) → n ≤ 2 ^ 24 → IsOk (account_id_field (some (pos n)))
unfolding account_id_field
account-IsOk n h =
    let (_, _, _, _, _, _, _, same) = number_fields_lem n in
    let test : leb n (2 ^ 24) ≡ true = ground arith in
    (fixed_digits 256 4 n [], same ∙ rw test refl)

start-IsOk :
    (t : Transfer) → IsOk (type_field (transfer t)) × IsOk (int_to_bytes transaction_version 1)
unfolding type_field tx_type int_to_bytes to_bytes fixed_digits
start-IsOk t = ((0xfa ∷ [], refl), (1 ∷ [], refl))

packed-IsOk :
    (t : Transfer)
    → IsSendable t
    → IsOk (packed_amount_checked t.amount) × IsOk (packed_fee_checked t.fee)
packed-IsOk t h =
    let (amount, packed, _, _) = packed_amount_checked_packable h.amount h.amount_fits in
    let (fee, packed_fee, _, _) = packed_fee_checked_packable h.fee h.fee_fits in
    (
      (amount, ap packed_amount_checked h.is_amount ∙ packed),
      (fee, ap packed_fee_checked h.is_fee ∙ packed_fee),
    )

pub encoded_message-IsOk :
    (lib : Result NativeCrypto) (t : Transfer)
    → IsSendable t
    → IsOk (encoded_message lib (transfer t))
unfolding encoded_message
encoded_message-IsOk lib t h =
    let (type, version) = start-IsOk t in
    let (amount, fee) = packed-IsOk t h in
    let (_, _, _, _, nonce, _, _, _) = number_fields_lem h.nonce in
    let (_, _, _, _, _, from, _, _) = number_fields_lem h.start in
    let (_, _, _, _, _, until, _, _) = number_fields_lem h.stop in
    let (_, _, _, _, _, _, token, _) = number_fields_lem h.token in
    let account : IsOk (account_id_field t.account_id) = rw h.is_id (account-IsOk h.id h.id_fits) in
    join-IsOk (transfer_fields t) (
      type,
      (
        version,
        (
          account,
          (
            h.sender,
            (
              h.recipient,
              (
                chosen-IsOk _ h.token _ _ h.token_fits (ap serialize_token_id h.is_token ∙ token),
                (
                  amount,
                  (
                    fee,
                    (
                      chosen-IsOk _ h.nonce _ _ h.nonce_fits
                          (ap serialize_nonce h.is_nonce ∙ nonce),
                      (
                        chosen-IsOk _ h.start _ _ h.start_fits
                            (ap serialize_timestamp h.is_start ∙ from),
                        (
                          chosen-IsOk _ h.stop _ _ h.stop_fits
                              (ap serialize_timestamp h.is_stop ∙ until),
                          tt,
                        ),
                      ),
                    ),
                  ),
                ),
              ),
            ),
          ),
        ),
      ),
    )
