-- ===== src/Contracts/Calls.antt =====
-- Which transactions the methods of the contracts send.
use zksync_python.Prelude.{
  Json, int, Fields, end, field, ℤ, ◌≡◌, refl, ap, ◌∙◌, true, false, List, [], ◌∷◌, Option, none,
  some, ok, ◌⊎◌, inl, inr, Bool-cases,
}
use zksync_python.Python.Text.{Text, text, eqb_text, eqb_text_sound}
use zksync_python.Python.Hex.{Bytes}
use zksync_python.Python.Decimal.{Decimal}
use zksync_python.Python.Effects.Runs.{after}
use zksync_python.Json.{lookup}
use zksync_python.Types.{Token, plain}
use zksync_python.Tokens.{is_eth, from_decimal}
use zksync_python.Contracts.{
  Web3, Contract, Value, text_value, int_value, update, call_params, call_method, deposit_eth,
  deposit_erc20,
}
use zksync_python.Contracts.Deposits.{deposit}

lookup-update :
    (key : Text) (value : Json) (d : Fields)
    → eqb_text key key ≡ true
    → lookup key (update key value d) ≡ some value
unfolding lookup update
lookup-update key value end same = rw same refl
lookup-update key value (field name old rest) same = elim (Bool-cases (eqb_text name key)) [
  | inl here ↦ rw (here, here) refl
  | inr elsewhere ↦ rw (elsewhere, elsewhere) (lookup-update key value rest same)
]

lookup-update_other :
    (key other : Text) (value : Json) (d : Fields)
    → eqb_text key other ≡ false
    → lookup other (update key value d) ≡ lookup other d
unfolding lookup update
lookup-update_other key other value end differ = rw differ refl
lookup-update_other key other value (field name old rest) differ =
    let ih = lookup-update_other key other value rest differ in
    elim (Bool-cases (eqb_text name key)) [
      | inl here ↦
          let elsewhere : eqb_text name other ≡ false =
            ap (λ k. eqb_text k other) (eqb_text_sound name key here) ∙ differ in
          rw (here, elsewhere) refl
      | inr elsewhere ↦ rw (elsewhere, ih) refl
    ]

module _ (web3 : Web3) where
  -- A transaction for the method, with its arguments and the amount where there is one, was built
  -- in the first world; but for its nonce, which is the number of the account's transactions, it is
  -- the one that the account signed; that was sent, and its receipt came in the last world.
  abbrev pub IsSent :
      Contract web3 → Text → List Value → Option ℤ → web3.World → Json → web3.World → Type 0
  IsSent contract name args amount w receipt w' =
      (built signed : Fields) × (count : ℤ) × (raw : Bytes) × (hash : Json) × (w1 w2
        w3 : web3.World)
      × (web3.build_transaction contract.handle name args
            (call_params amount contract.account.address) w
          ≡ (ok built, w1))
      × (web3.get_transaction_count contract.account.address w1 ≡ (ok count, w2))
      × (lookup (text "nonce") signed ≡ some (int count))
      × ((key : Text) → eqb_text (text "nonce") key ≡ false → lookup key signed ≡ lookup key built)
      × (contract.account.sign_transaction signed ≡ ok raw)
      × (web3.send_raw_transaction raw w2 ≡ (ok hash, w3))
      × (web3.wait_for_transaction_receipt hash w3 ≡ (ok receipt, w'))

  pub call_method-IsSent :
      (contract : Contract web3) (name : Text) (args : List Value) (amount : Option ℤ)
      (w w' : web3.World) (receipt : Json)
      → call_method web3 contract name args amount w ≡ (ok receipt, w')
      → IsSent contract name args amount w receipt w'
  unfolding call_method
  call_method-IsSent contract name args amount w w' receipt h = after _ _ h (λ built w1 by_web3 h.
      after _ _ h (λ count w2 counted h. after _ _ h (λ raw w2' by_account h.
        after _ _ h (λ hash w3 sent h.
          let signed = update (text "nonce") (int count) built in
          let same : w2 ≡ w2' = ap (λ run. run.1) by_account in
          (
            built,
            signed,
            count,
            raw,
            hash,
            w1,
            w2,
            w3,
            by_web3,
            counted,
            lookup-update (text "nonce") (int count) built refl,
            (λ key differ. lookup-update_other (text "nonce") key (int count) built differ),
            ap (λ run. run.0) by_account,
            rw same sent,
            h,
          )))))

  -- A deposit that returns a receipt has sent one transaction to the zkSync contract: for the token
  -- ETH a call of `depositETH` for the address with the amount in wei as its value, and for each
  -- other token a call of `depositERC20` for the token's address, the amount in the token's lowest
  -- unit and the address, without a value.
  pub deposit_sends :
      (zksync : Contract web3) (token : Token) (amount : Decimal) (address : Text)
      (w w' : web3.World) (receipt : Json)
      → deposit web3 zksync token amount address w ≡ (ok receipt, w')
      → ((is_eth token ≡ true)
          × IsSent zksync
              (text "depositETH")
              (text_value address ∷ [])
              (some (from_decimal (plain token) amount))
              w
              receipt
              w')
        ⊎ ((is_eth token ≡ false)
            × IsSent zksync
                (text "depositERC20")
                (text_value token.address
                  ∷ int_value (from_decimal (plain token) amount)
                  ∷ text_value address
                  ∷ [])
                none
                w
                receipt
                w')
  unfolding deposit deposit_eth deposit_erc20
  deposit_sends zksync token amount address w w' receipt h = elim (Bool-cases (is_eth token)) [
    | inl native ↦ inl (native, call_method-IsSent zksync _ _ _ w w' receipt (rw native at h))
    | inr erc20 ↦ inr (erc20, call_method-IsSent zksync _ _ _ w w' receipt (rw erc20 at h))
  ]
