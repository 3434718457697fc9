-- ===== src/Encoding/Orders.antt =====
-- The message of an order determines the order, as far as it says anything.
use zksync_python.Prelude.{ℕ, ◌<◌, ◌^◌, ◌≡◌, sym, ap, ◌∙◌, ℤ, pos, ok}
use zksync_python.Python.Hex.{Bytes}
use zksync_python.Serializers.Fields.{serialize_ratio_part}
use zksync_python.Serializers.Fields.Numbers.{
  int_to_bytes-IsField, serialize_nonce-IsField, serialize_timestamp-IsField,
  serialize_token_id-IsField,
}
use zksync_python.Serializers.Fields.Texts.{serialize_ratio_part-int_to_bytes}
use zksync_python.Types.{Order}
use zksync_python.Encoding.{order_fields, order_message}
use zksync_python.Encoding.Layout.{SameField, join-SameFields}
use zksync_python.Encoding.Widths.{
  IsNarrow, order_widths, order_fields-HasWidths, account_id_field-IsField,
}
use zksync_python.Encoding.Determines.{from_field, SameAddress, addresses_same, amounts_same}

ratio_parts_same :
    (y z : ℤ) (m n : ℕ)
    → y ≡ pos m
    → z ≡ pos n
    → m < 256 ^ 15
    → n < 256 ^ 15
    → SameField (serialize_ratio_part y) (serialize_ratio_part z)
    → y ≡ z
ratio_parts_same y z m n is_m is_n fits_m fits_n (bytes, hy, hz) =
    is_m
    ∙ (int_to_bytes-IsField 15).injective (pos m) (pos n) bytes
        (sym (serialize_ratio_part-int_to_bytes m fits_m) ∙ ap serialize_ratio_part (sym is_m) ∙ hy)
        (sym (serialize_ratio_part-int_to_bytes n fits_n) ∙ ap serialize_ratio_part (sym is_n) ∙ hz)
    ∙ sym is_n

-- Two orders with ratio parts from 0 to 2^120 - 1 and the same message agree in the account id, the
-- recipient's address as bytes, the nonce, the ids of both tokens, both parts of the ratio, the
-- amount and both timestamps.
pub order_message-injective :
    (s t : Order) (bytes : Bytes)
    → IsNarrow s.ratio
    → IsNarrow t.ratio
    → order_message s ≡ ok bytes
    → order_message t ≡ ok bytes
    → (s.account_id ≡ t.account_id)
      × SameAddress s.recipient t.recipient
      × (s.nonce ≡ t.nonce)
      × (s.token_sell.id ≡ t.token_sell.id)
      × (s.token_buy.id ≡ t.token_buy.id)
      × (s.ratio.numerator ≡ t.ratio.numerator)
      × (s.ratio.denominator ≡ t.ratio.denominator)
      × (s.amount ≡ t.amount)
      × (s.valid_from ≡ t.valid_from)
      × (s.valid_until ≡ t.valid_until)
unfolding order_message
order_message-injective s t bytes narrow_s narrow_t hs ht =
    let (
      _,
      (
        _,
        (
          account,
          (
            recipient,
            (nonce, (sell, (buy, (numerator, (denominator, (amount, (from, (until, _)))))))),
          ),
        ),
      ),
    ) =
      join-SameFields order_widths (order_fields s) (order_fields t) bytes
        (order_fields-HasWidths s narrow_s) (order_fields-HasWidths t narrow_t) hs ht in
    let (m, d, is_m, is_d, fits_m, fits_d) = narrow_s in
    let (n, e, is_n, is_e, fits_n, fits_e) = narrow_t in
    (
      from_field account_id_field-IsField account,
      addresses_same _ _ recipient,
      from_field serialize_nonce-IsField nonce,
      from_field serialize_token_id-IsField sell,
      from_field serialize_token_id-IsField buy,
      ratio_parts_same _ _ m n is_m is_n fits_m fits_n numerator,
      ratio_parts_same _ _ d e is_d is_e fits_d fits_e denominator,
      amounts_same amount,
      from_field serialize_timestamp-IsField from,
      from_field serialize_timestamp-IsField until,
    )
