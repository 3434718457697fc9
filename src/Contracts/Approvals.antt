-- ===== src/Contracts/Approvals.antt =====
-- How allowances are given and asked for.
use zksync_python.Prelude.{
  Json, ℤ, ◌≡◌, refl, sym, ap, ◌∙◌, Bool, not, [], ◌∷◌, Option, none, some, ok, ok-injective, ltb_ℤ,
}
use zksync_python.Python.Text.{Text, text}
use zksync_python.Python.Decimal.{Decimal}
use zksync_python.Python.Effects.Runs.{after}
use zksync_python.Types.{Token, plain}
use zksync_python.Tokens.{from_decimal}
use zksync_python.Contracts.{
  Web3, Contract, Value, text_value, int_value, bytes_value, at_least, erc20_is_deposit_approved,
}
use zksync_python.Contracts.Abi.{Cached}
use zksync_python.Contracts.Deposits.{erc20_contract, is_deposit_approved}
use zksync_python.Prelude.{subst}
use zksync_python.Contracts.Deposits.{approve_deposit, units_of}
use zksync_python.Contracts.{BaseAccount, erc20_approve_deposit}
use zksync_python.Contracts.Abi.{erc20_abi}
use zksync_python.Contracts.Calls.{IsSent, call_method-IsSent}

module _ (web3 : Web3) where
  at_least-eq-ok :
      (value : Value) (threshold : Option ℤ) (b : Bool)
      → at_least value threshold ≡ ok b
      → (allowance limit : ℤ) × (value ≡ int_value allowance)
        × (threshold ≡ some limit)
        × (b ≡ not (ltb_ℤ allowance limit))
  unfolding at_least
  at_least-eq-ok (int_value allowance) (some limit) b h =
      (allowance, limit, refl, refl, sym (ok-injective h))
  at_least-eq-ok (int_value allowance) none b h = cc
  at_least-eq-ok (text_value s) threshold b h = cc
  at_least-eq-ok (bytes_value s) threshold b h = cc

  -- `is_deposit_approved` returns only where a threshold is given: its default, None, raises for each
  -- token and in each state. What it returns is whether the allowance that the token's contract names
  -- for the account and the zkSync contract is at least the threshold.
  pub is_deposit_approved_answers :
      (zksync : Contract web3) (token : Token) (threshold : Option ℤ) (s s' : Cached web3)
      (b : Bool)
      → is_deposit_approved web3 zksync token threshold s ≡ (ok b, s')
      → (limit allowance : ℤ) × (contract : Contract web3) × (s1 : Cached web3) × (threshold
          ≡ some limit)
        × (erc20_contract web3 token.address zksync.account s ≡ (ok contract, s1))
        × (web3.call contract.handle
              (text "allowance")
              (text_value contract.account.address ∷ text_value zksync.contract_address ∷ [])
              s1.1
            ≡ (ok (int_value allowance), s'.1))
        × (b ≡ not (ltb_ℤ allowance limit))
  unfolding is_deposit_approved erc20_is_deposit_approved
  is_deposit_approved_answers zksync token threshold s s' b h = after _ _ h (λ contract s1 made h.
      let h : erc20_is_deposit_approved web3 contract zksync.contract_address threshold s1.1
          ≡ (ok b, s'.1) =
        ap (λ run. (run.0, run.1.1)) h in
      after _ _ h (λ value w called h.
        let (allowance, limit, is_int, given, same) =
          at_least-eq-ok value threshold b (ap (λ run. run.0) h) in
        let world : w ≡ s'.1 = ap (λ run. run.1) h in
        (limit, allowance, contract, s1, given, made, called ∙ rw (is_int, world) refl, same)))

  units_of-eq-ok :
      (token : Token) (limit : Option Decimal) (units : ℤ)
      → units_of token limit ≡ ok units
      → (amount : Decimal) × (limit ≡ some amount) × (units ≡ from_decimal (plain token) amount)
  unfolding units_of
  units_of-eq-ok token (some amount) units h = (amount, refl, sym (ok-injective h))
  units_of-eq-ok token none units h = cc

  -- A contract that is made has the handle that web3 made of the address and the ABI.
  erc20_contract-eq-ok :
      (address : Text) (account : BaseAccount) (s s' : Cached web3) (contract : Contract web3)
      → erc20_contract web3 address account s ≡ (ok contract, s')
      → (abi : Json) × (erc20_abi web3 s ≡ (ok abi, s'))
        × (web3.contract address abi ≡ ok contract.handle)
        × (contract.account ≡ account)
  unfolding erc20_contract
  erc20_contract-eq-ok address account s s' contract h = after _ _ h (λ abi s1 known h.
      after _ _ h (λ handle s2 made h.
        let same : record { handle = handle; contract_address = address; account = account }
            ≡ contract =
          ok-injective (ap (λ run. run.0) h) in
        let unchanged : s1 ≡ s' = ap (λ run. run.1) made ∙ ap (λ run. run.1) h in
        (
          abi,
          known ∙ ap (λ s. (ok abi, s)) unchanged,
          ap (λ run. run.0) made ∙ ap (λ (c : Contract web3). ok c.handle) same,
          sym (ap (λ (c : Contract web3). c.account) same),
        )))

  -- `approve_deposit` returns a receipt only where a limit is given: its default, None, raises for
  -- each token and in each state. It has sent one transaction then, to the contract at the token's
  -- address with the ABI that `erc20_abi` returned: a call of `approve` for the zkSync contract with
  -- the limit in the token's lowest unit, without a value, by the account.
  pub approve_deposit_sends :
      (zksync : Contract web3) (token : Token) (limit : Option Decimal) (s s' : Cached web3)
      (receipt : Json)
      → approve_deposit web3 zksync token limit s ≡ (ok receipt, s')
      → (amount : Decimal) × (contract : Contract web3) × (abi : Json) × (s1 : Cached web3) × (limit
          ≡ some amount)
        × (erc20_abi web3 s ≡ (ok abi, s1))
        × (web3.contract token.address abi ≡ ok contract.handle)
        × (contract.account ≡ zksync.account)
        × IsSent web3 contract
            (text "approve")
            (text_value zksync.contract_address
              ∷ int_value (from_decimal (plain token) amount)
              ∷ [])
            none
            s1.1
            receipt
            s'.1
  unfolding approve_deposit erc20_approve_deposit
  approve_deposit_sends zksync token limit s s' receipt h = after _ _ h (λ contract s1 made h.
      after _ _ h (λ units s2 converted h.
        let (abi, known, handle, account) =
          erc20_contract-eq-ok token.address zksync.account s s1 contract made in
        let (amount, given, same) =
          units_of-eq-ok token limit units (ap (λ run. run.0) converted) in
        let world : s1 ≡ s2 = ap (λ run. run.1) converted in
        let sent : IsSent web3 contract (text "approve")
            (text_value zksync.contract_address ∷ int_value units ∷ []) none s2.1 receipt s'.1 =
          call_method-IsSent web3 contract _ _ _ s2.1 s'.1 receipt
            (ap (λ run. (run.0, run.1.1)) h) in
        (
          amount,
          contract,
          abi,
          s1,
          given,
          known,
          handle,
          account,
          subst
              (λ w.
                IsSent web3 contract (text "approve")
                  (text_value zksync.contract_address
                    ∷ int_value (from_decimal (plain token) amount)
                    ∷ [])
                  none w receipt s'.1)
              (sym (ap (λ p. p.1) world))
              (subst
                (λ z.
                  IsSent web3 contract (text "approve")
                    (text_value zksync.contract_address ∷ int_value z ∷ []) none s2.1 receipt s'.1)
                same sent),
        )))
