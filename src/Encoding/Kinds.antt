-- ===== src/Encoding/Kinds.antt =====
-- The first byte of a message tells its kind.
use zksync_python.Prelude.{
  eqb_ℤ, if◌then◌else◌, ℕ, ◌-◌, ◌≤◌, ◌≡◌, ◌≢◌, refl, sym, ap, ◌∙◌, List, [], ◌∷◌, ◌++◌, ℤ, pos,
  ◌-ℤ◌, Result, ok, >>=-eq-ok, arith, append-injective, pos-injective,
}
use zksync_python.Python.Hex.{Bytes}
use zksync_python.Library.{NativeCrypto}
use zksync_python.Serializers.Fields.{int_to_bytes}
use zksync_python.Serializers.Fields.Numbers.{int_to_bytes-IsField}
use zksync_python.Types.{
  Order, EncodedTx, change_pub_key, transfer, withdraw, forced_exit, swap, mint_nft, withdraw_nft,
}
use zksync_python.Encoding.{
  join, change_pub_key_fields, transfer_fields, withdraw_fields, forced_exit_fields, order_fields,
  mint_nft_fields, withdraw_nft_fields, swap_fields, order_message, swap_order_bytes,
  encoded_message, tx_type, type_field,
}
use zksync_python.Encoding.Layout.{join_cons}

abbrev StartsWith : Result Bytes → Bytes → Type 0
StartsWith field bytes =
    (front : Bytes) × (rest : Bytes) × (field ≡ ok front) × (bytes ≡ front ++ rest)

abbrev first : List (Result Bytes) → Result Bytes
first [] = ok []
first (field ∷ fields) = field

first_field :
    (fields : List (Result Bytes)) (bytes : Bytes)
    → join fields ≡ ok bytes
    → StartsWith (first fields) bytes
first_field [] bytes h = ([], bytes, refl, refl)
first_field (field ∷ fields) bytes h =
    let (front, rest, run, _, same) = join_cons field fields bytes h in (front, rest, run, same)

encoded_message-StartsWith :
    (lib : Result NativeCrypto) (tx : EncodedTx) (bytes : Bytes)
    → encoded_message lib tx ≡ ok bytes
    → StartsWith (type_field tx) bytes
unfolding encoded_message
encoded_message-StartsWith lib (change_pub_key tx) bytes h =
    first_field (change_pub_key_fields tx) bytes h
encoded_message-StartsWith lib (transfer tx) bytes h = first_field (transfer_fields tx) bytes h
encoded_message-StartsWith lib (withdraw tx) bytes h = first_field (withdraw_fields tx) bytes h
encoded_message-StartsWith lib (forced_exit tx) bytes h =
    first_field (forced_exit_fields tx) bytes h
encoded_message-StartsWith lib (swap tx) bytes h =
    let (order_bytes, _, run) =
      >>=-eq-ok (swap_order_bytes tx) (λ order_bytes. join (swap_fields lib tx order_bytes)) h in
    first_field (swap_fields lib tx order_bytes) bytes run
encoded_message-StartsWith lib (mint_nft tx) bytes h = first_field (mint_nft_fields tx) bytes h
encoded_message-StartsWith lib (withdraw_nft tx) bytes h =
    first_field (withdraw_nft_fields tx) bytes h

-- The types are small, so `0xff - type` is a byte of its own for each.
tx_type_small : (tx : EncodedTx) → (n : ℕ) × (tx_type tx ≡ pos n) × (n ≤ 11)
unfolding tx_type
tx_type_small (change_pub_key tx) = (7, refl, omega arith)
tx_type_small (transfer tx) = (5, refl, omega arith)
tx_type_small (withdraw tx) = (3, refl, omega arith)
tx_type_small (forced_exit tx) = (8, refl, omega arith)
tx_type_small (swap tx) = (11, refl, omega arith)
tx_type_small (mint_nft tx) = (9, refl, omega arith)
tx_type_small (withdraw_nft tx) = (10, refl, omega arith)

from_0xff : (n : ℕ) → n ≤ 11 → pos 0xff -ℤ pos n ≡ pos (0xff - n)
from_0xff n h = ground arith

-- Two fields of one byte that begin the same bytes stand for the same number.
same_first :
    (y z : ℤ) (bytes : Bytes)
    → StartsWith (int_to_bytes y 1) bytes
    → StartsWith (int_to_bytes z 1) bytes
    → y ≡ z
same_first y z bytes (front, rest, run, same) (front', rest', run', same') =
    let one = int_to_bytes-IsField 1 in
    let (fronts, _) =
      append-injective front front' rest rest'
        (one.sized y front run ∙ sym (one.sized z front' run')) (sym same ∙ same') in
    one.injective y z front' (run ∙ ap ok fronts) run'

encoded_message-tx_type :
    (lib : Result NativeCrypto) (s t : EncodedTx) (bytes : Bytes)
    → encoded_message lib s ≡ ok bytes
    → encoded_message lib t ≡ ok bytes
    → tx_type s ≡ tx_type t
unfolding type_field
encoded_message-tx_type lib s t bytes hs ht =
    let (m, type_s, small_s) = tx_type_small s in
    let (n, type_t, small_t) = tx_type_small t in
    let numbers =
      same_first (pos 0xff -ℤ tx_type s) (pos 0xff -ℤ tx_type t) bytes
        (encoded_message-StartsWith lib s bytes hs) (encoded_message-StartsWith lib t bytes ht) in
    let codes : pos (0xff - m) ≡ pos (0xff - n) =
      sym (from_0xff m small_s)
      ∙ ap (λ k. pos 0xff -ℤ k) (sym type_s)
      ∙ numbers
      ∙ ap (λ k. pos 0xff -ℤ k) type_t
      ∙ from_0xff n small_t in
    type_s ∙ ap pos (omega (arith, pos-injective _ _ codes)) ∙ sym type_t

-- The class of a transaction.
pub data Kind : Type 0 where
  change_pub_key_kind transfer_kind withdraw_kind forced_exit_kind swap_kind mint_nft_kind
        withdraw_nft_kind :
      Kind

abbrev pub kind : EncodedTx → Kind
kind (change_pub_key tx) = change_pub_key_kind
kind (transfer tx) = transfer_kind
kind (withdraw tx) = withdraw_kind
kind (forced_exit tx) = forced_exit_kind
kind (swap tx) = swap_kind
kind (mint_nft tx) = mint_nft_kind
kind (withdraw_nft tx) = withdraw_nft_kind

-- The class that a number stands for.
abbrev kind_of_number : ℤ → Kind
kind_of_number z =
    if eqb_ℤ z (pos 7)
    then change_pub_key_kind
    else if eqb_ℤ z (pos 5)
    then transfer_kind
    else if eqb_ℤ z (pos 3)
    then withdraw_kind
    else if eqb_ℤ z (pos 8)
    then forced_exit_kind
    else if eqb_ℤ z (pos 11)
    then swap_kind
    else if eqb_ℤ z (pos 9)
    then mint_nft_kind
    else withdraw_nft_kind

tx_type-kind : (tx : EncodedTx) → kind_of_number (tx_type tx) ≡ kind tx
unfolding tx_type
tx_type-kind (change_pub_key tx) = refl
tx_type-kind (transfer tx) = refl
tx_type-kind (withdraw tx) = refl
tx_type-kind (forced_exit tx) = refl
tx_type-kind (swap tx) = refl
tx_type-kind (mint_nft tx) = refl
tx_type-kind (withdraw_nft tx) = refl

-- Two transactions that are encoded as the same bytes are of the same class.
pub encoded_message-kind :
    (lib : Result NativeCrypto) (s t : EncodedTx) (bytes : Bytes)
    → encoded_message lib s ≡ ok bytes
    → encoded_message lib t ≡ ok bytes
    → kind s ≡ kind t
encoded_message-kind lib s t bytes hs ht =
    sym (tx_type-kind s)
    ∙ ap kind_of_number (encoded_message-tx_type lib s t bytes hs ht)
    ∙ tx_type-kind t

-- The bytes of an order are never those of a transaction.
pub order_message-ne-encoded_message :
    (lib : Result NativeCrypto) (order : Order) (tx : EncodedTx) (bytes : Bytes)
    → order_message order ≡ ok bytes
    → encoded_message lib tx ≢ ok bytes
unfolding order_message type_field
order_message-ne-encoded_message lib order tx bytes ho ht =
    let (n, type_t, small) = tx_type_small tx in
    let numbers =
      same_first (pos b'o') (pos 0xff -ℤ tx_type tx) bytes
        (first_field (order_fields order) bytes ho) (encoded_message-StartsWith lib tx bytes ht) in
    let codes : pos b'o' ≡ pos (0xff - n) =
      numbers ∙ ap (λ k. pos 0xff -ℤ k) type_t ∙ from_0xff n small in
    omega (arith, pos-injective _ _ codes)
