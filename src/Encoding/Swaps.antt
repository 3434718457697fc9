-- ===== src/Encoding/Swaps.antt =====
-- The message of a swap determines the swap up to the hash of its orders.
use zksync_python.Prelude.{Result, ◌≡◌, sym, ◌∙◌, ok, >>=-eq-ok}
use zksync_python.Python.Hex.{Bytes}
use zksync_python.Library.{NativeCrypto}
use zksync_python.Serializers.Fields.Numbers.{serialize_nonce-IsField, serialize_token_id-IsField}
use zksync_python.Types.{Swap, swap}
use zksync_python.Encoding.{
  hash_orders_loaded, join, swap_fields, swap_order_bytes, encoded_message,
}
use zksync_python.Encoding.Layout.{join-SameFields}
use zksync_python.Encoding.Widths.{swap_widths, swap_fields-HasWidths, account_id_field-IsField}
use zksync_python.Encoding.Determines.{
  from_field, SameAddress, addresses_same, amounts_same, fees_same,
}

-- Two swaps with the same message agree in the submitter's id, the submitter's address as bytes, the
-- nonce, the fee token's id, the fee and both amounts, and the bytes of their orders have the same
-- hash.
pub swap-encoded_message-injective :
    (lib : Result NativeCrypto) (s t : Swap) (bytes : Bytes)
    → encoded_message lib (swap s) ≡ ok bytes
    → encoded_message lib (swap t) ≡ ok bytes
    → (s.submitter_id ≡ t.submitter_id)
      × SameAddress s.submitter_address t.submitter_address
      × (s.nonce ≡ t.nonce)
      × (s.fee_token.id ≡ t.fee_token.id)
      × (s.fee ≡ t.fee)
      × (s.amounts.0 ≡ t.amounts.0)
      × (s.amounts.1 ≡ t.amounts.1)
      × (orders_s orders_t : Bytes) × (swap_order_bytes s ≡ ok orders_s)
      × (swap_order_bytes t ≡ ok orders_t)
      × (hash_orders_loaded lib orders_s ≡ hash_orders_loaded lib orders_t)
unfolding encoded_message
swap-encoded_message-injective lib s t bytes hs ht =
    let (orders_s, found_s, run_s) =
      >>=-eq-ok (swap_order_bytes s) (λ orders. join (swap_fields lib s orders)) hs in
    let (orders_t, found_t, run_t) =
      >>=-eq-ok (swap_order_bytes t) (λ orders. join (swap_fields lib t orders)) ht in
    let (_, (_, (account, (submitter, (nonce, (hash, (token, (fee, (first, (second, _)))))))))) =
      join-SameFields swap_widths (swap_fields lib s orders_s) (swap_fields lib t orders_t) bytes
        (swap_fields-HasWidths lib s orders_s) (swap_fields-HasWidths lib t orders_t) run_s run_t in
    let (digest, hash_s, hash_t) = hash in
    (
      from_field account_id_field-IsField account,
      addresses_same _ _ submitter,
      from_field serialize_nonce-IsField nonce,
      from_field serialize_token_id-IsField token,
      fees_same fee,
      amounts_same first,
      amounts_same second,
      orders_s,
      orders_t,
      found_s,
      found_t,
      hash_s ∙ sym hash_t,
    )
