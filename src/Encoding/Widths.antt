-- ===== src/Encoding/Widths.antt =====
-- The width of every field, message by message.
use zksync_python.Prelude.{
  Result, err, ℕ, ◌^◌, ◌<◌, ◌≡◌, sym, ap, ◌∙◌, List, [], ◌∷◌, length, ℤ, pos, ◌-ℤ◌, Option, none,
  some, ok, ◌>>=◌, or_raise, type_error,
}
use zksync_python.Python.Hex.{Bytes}
use zksync_python.Python.Fraction.{Fraction}
use zksync_python.Library.{orders_hash_len, NativeCrypto, length-hash_orders}
use zksync_python.Serializers.{packed_amount_checked, packed_fee_checked}
use zksync_python.Serializers.Amounts.{packed_amount_checked_sound}
use zksync_python.Serializers.Fees.{packed_fee_checked_sound}
use zksync_python.Serializers.Fields.{serialize_account_id, serialize_ratio_part, int_to_bytes}
use zksync_python.Serializers.Fields.Numbers.{
  IsField, int_to_bytes-IsField, serialize_nonce-IsField, serialize_timestamp-IsField,
  serialize_token_id-IsField, serialize_account_id-IsField,
}
use zksync_python.Serializers.Fields.Texts.{
  serialize_address_sized, serialize_ratio_part-int_to_bytes,
}
use zksync_python.Types.{
  ChangePubKey, Transfer, Withdraw, ForcedExit, Order, Swap, WithdrawNft, EncodedTx, change_pub_key,
  transfer, withdraw, forced_exit, swap, withdraw_nft,
}
use zksync_python.Encoding.{
  hash_orders_loaded, account_id_field, type_field, tx_type, change_pub_key_fields, transfer_fields,
  withdraw_fields, forced_exit_fields, order_fields, swap_fields, withdraw_nft_fields,
}
use zksync_python.Encoding.Layout.{HasWidths}

pub account_id_field-IsField : IsField account_id_field 4
unfolding account_id_field
account_id_field-IsField = record {
  sized = λ a bytes h. sized a bytes h;
  injective = λ a b bytes ha hb. injective a b bytes ha hb;
}
  where
    sized :
        (a : Option ℤ) (bytes : Bytes)
        → (or_raise a type_error >>= serialize_account_id) ≡ ok bytes
        → length bytes ≡ 4
    sized none bytes h = cc
    sized (some z) bytes h = serialize_account_id-IsField.sized z bytes h

    injective :
        (a b : Option ℤ) (bytes : Bytes)
        → (or_raise a type_error >>= serialize_account_id) ≡ ok bytes
        → (or_raise b type_error >>= serialize_account_id) ≡ ok bytes
        → a ≡ b
    injective none b bytes ha hb = cc
    injective (some y) none bytes ha hb = cc
    injective (some y) (some z) bytes ha hb =
        ap some (serialize_account_id-IsField.injective y z bytes ha hb)

pub type_field_sized :
    (tx : EncodedTx) (bytes : Bytes) → type_field tx ≡ ok bytes → length bytes ≡ 1
unfolding type_field
type_field_sized tx bytes h = (int_to_bytes-IsField 1).sized (pos 0xff -ℤ tx_type tx) bytes h

amount_sized : (z : ℤ) (bytes : Bytes) → packed_amount_checked z ≡ ok bytes → length bytes ≡ 5
amount_sized z bytes h = let (_, _, _, _, len) = packed_amount_checked_sound z bytes h in len

fee_sized : (z : ℤ) (bytes : Bytes) → packed_fee_checked z ≡ ok bytes → length bytes ≡ 2
fee_sized z bytes h = let (_, _, _, _, len) = packed_fee_checked_sound z bytes h in len

-- Both parts of a ratio lie below 2^120.
abbrev pub IsNarrow : Fraction → Type 0
IsNarrow ratio =
    (n : ℕ) × (d : ℕ) × (ratio.numerator ≡ pos n)
    × (ratio.denominator ≡ pos d)
    × (n < 256 ^ 15)
    × (d < 256 ^ 15)

ratio_sized :
    (z : ℤ) (n : ℕ) (bytes : Bytes)
    → z ≡ pos n
    → n < 256 ^ 15
    → serialize_ratio_part z ≡ ok bytes
    → length bytes ≡ 15
ratio_sized z n bytes same fits h =
    (int_to_bytes-IsField 15).sized (pos n) bytes
      (sym (serialize_ratio_part-int_to_bytes n fits) ∙ ap serialize_ratio_part (sym same) ∙ h)

abbrev pub change_pub_key_widths : List ℕ
change_pub_key_widths = 1 ∷ 1 ∷ 4 ∷ 20 ∷ 20 ∷ 4 ∷ 2 ∷ 4 ∷ 8 ∷ 8 ∷ []

abbrev pub transfer_widths : List ℕ
transfer_widths = 1 ∷ 1 ∷ 4 ∷ 20 ∷ 20 ∷ 4 ∷ 5 ∷ 2 ∷ 4 ∷ 8 ∷ 8 ∷ []

abbrev pub withdraw_widths : List ℕ
withdraw_widths = 1 ∷ 1 ∷ 4 ∷ 20 ∷ 20 ∷ 4 ∷ 16 ∷ 2 ∷ 4 ∷ 8 ∷ 8 ∷ []

abbrev pub forced_exit_widths : List ℕ
forced_exit_widths = 1 ∷ 1 ∷ 4 ∷ 20 ∷ 4 ∷ 2 ∷ 4 ∷ 8 ∷ 8 ∷ []

abbrev pub order_widths : List ℕ
order_widths = 1 ∷ 1 ∷ 4 ∷ 20 ∷ 4 ∷ 4 ∷ 4 ∷ 15 ∷ 15 ∷ 5 ∷ 8 ∷ 8 ∷ []

abbrev pub swap_widths : List ℕ
swap_widths = 1 ∷ 1 ∷ 4 ∷ 20 ∷ 4 ∷ 31 ∷ 4 ∷ 2 ∷ 5 ∷ 5 ∷ []

abbrev pub withdraw_nft_widths : List ℕ
withdraw_nft_widths = 1 ∷ 1 ∷ 4 ∷ 20 ∷ 20 ∷ 4 ∷ 4 ∷ 2 ∷ 4 ∷ 8 ∷ 8 ∷ []

byte_sized : (z : ℤ) (bytes : Bytes) → int_to_bytes z 1 ≡ ok bytes → length bytes ≡ 1
byte_sized = (int_to_bytes-IsField 1).sized

account_sized : (a : Option ℤ) (bytes : Bytes) → account_id_field a ≡ ok bytes → length bytes ≡ 4
account_sized = account_id_field-IsField.sized

pub change_pub_key_fields-HasWidths :
    (tx : ChangePubKey) → HasWidths change_pub_key_widths (change_pub_key_fields tx)
change_pub_key_fields-HasWidths tx = (
  type_field_sized (change_pub_key tx),
  (
    byte_sized _,
    (
      account_sized _,
      (
        serialize_address_sized _,
        (
          serialize_address_sized _,
          (
            serialize_token_id-IsField.sized _,
            (
              fee_sized _,
              (
                serialize_nonce-IsField.sized _,
                (serialize_timestamp-IsField.sized _, (serialize_timestamp-IsField.sized _, tt)),
              ),
            ),
          ),
        ),
      ),
    ),
  ),
)

pub transfer_fields-HasWidths : (tx : Transfer) → HasWidths transfer_widths (transfer_fields tx)
transfer_fields-HasWidths tx = (
  type_field_sized (transfer tx),
  (
    byte_sized _,
    (
      account_sized _,
      (
        serialize_address_sized _,
        (
          serialize_address_sized _,
          (
            serialize_token_id-IsField.sized _,
            (
              amount_sized _,
              (
                fee_sized _,
                (
                  serialize_nonce-IsField.sized _,
                  (serialize_timestamp-IsField.sized _, (serialize_timestamp-IsField.sized _, tt)),
                ),
              ),
            ),
          ),
        ),
      ),
    ),
  ),
)

pub withdraw_fields-HasWidths : (tx : Withdraw) → HasWidths withdraw_widths (withdraw_fields tx)
withdraw_fields-HasWidths tx = (
  type_field_sized (withdraw tx),
  (
    byte_sized _,
    (
      account_sized _,
      (
        serialize_address_sized _,
        (
          serialize_address_sized _,
          (
            serialize_token_id-IsField.sized _,
            (
              (int_to_bytes-IsField 16).sized _,
              (
                fee_sized _,
                (
                  serialize_nonce-IsField.sized _,
                  (serialize_timestamp-IsField.sized _, (serialize_timestamp-IsField.sized _, tt)),
                ),
              ),
            ),
          ),
        ),
      ),
    ),
  ),
)

pub forced_exit_fields-HasWidths :
    (tx : ForcedExit) → HasWidths forced_exit_widths (forced_exit_fields tx)
forced_exit_fields-HasWidths tx = (
  type_field_sized (forced_exit tx),
  (
    byte_sized _,
    (
      account_sized _,
      (
        serialize_address_sized _,
        (
          serialize_token_id-IsField.sized _,
          (
            fee_sized _,
            (
              serialize_nonce-IsField.sized _,
              (serialize_timestamp-IsField.sized _, (serialize_timestamp-IsField.sized _, tt)),
            ),
          ),
        ),
      ),
    ),
  ),
)

pub order_fields-HasWidths :
    (order : Order) → IsNarrow order.ratio → HasWidths order_widths (order_fields order)
order_fields-HasWidths order (n, d, num, den, fits_n, fits_d) = (
  byte_sized _,
  (
    byte_sized _,
    (
      account_sized _,
      (
        serialize_address_sized _,
        (
          serialize_nonce-IsField.sized _,
          (
            serialize_token_id-IsField.sized _,
            (
              serialize_token_id-IsField.sized _,
              (
                (λ bytes. ratio_sized order.ratio.numerator n bytes num fits_n),
                (
                  (λ bytes. ratio_sized order.ratio.denominator d bytes den fits_d),
                  (
                    amount_sized _,
                    (
                      serialize_timestamp-IsField.sized _,
                      (serialize_timestamp-IsField.sized _, tt),
                    ),
                  ),
                ),
              ),
            ),
          ),
        ),
      ),
    ),
  ),
)

length-hash_orders_loaded :
    (lib : Result NativeCrypto) (orders bytes : Bytes)
    → hash_orders_loaded lib orders ≡ ok bytes
    → length bytes ≡ orders_hash_len
length-hash_orders_loaded (ok lib) orders bytes h = length-hash_orders lib orders bytes h
length-hash_orders_loaded (err e) orders bytes h = cc

pub swap_fields-HasWidths :
    (lib : Result NativeCrypto) (tx : Swap) (order_bytes : Bytes)
    → HasWidths swap_widths (swap_fields lib tx order_bytes)
swap_fields-HasWidths lib tx order_bytes = (
  type_field_sized (swap tx),
  (
    byte_sized _,
    (
      account_sized _,
      (
        serialize_address_sized _,
        (
          serialize_nonce-IsField.sized _,
          (
            length-hash_orders_loaded lib order_bytes,
            (
              serialize_token_id-IsField.sized _,
              (fee_sized _, (amount_sized _, (amount_sized _, tt))),
            ),
          ),
        ),
      ),
    ),
  ),
)

pub withdraw_nft_fields-HasWidths :
    (tx : WithdrawNft) → HasWidths withdraw_nft_widths (withdraw_nft_fields tx)
withdraw_nft_fields-HasWidths tx = (
  type_field_sized (withdraw_nft tx),
  (
    byte_sized _,
    (
      account_sized _,
      (
        serialize_address_sized _,
        (
          serialize_address_sized _,
          (
            serialize_token_id-IsField.sized _,
            (
              serialize_token_id-IsField.sized _,
              (
                fee_sized _,
                (
                  serialize_nonce-IsField.sized _,
                  (serialize_timestamp-IsField.sized _, (serialize_timestamp-IsField.sized _, tt)),
                ),
              ),
            ),
          ),
        ),
      ),
    ),
  ),
)
