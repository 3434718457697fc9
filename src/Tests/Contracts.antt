-- ===== src/Tests/Contracts.antt =====
-- The contracts on a chain that numbers its steps: a file, a transaction and a receipt each take one.
use zksync_python.Prelude.{
  Json, str, object, ◌≡◌, refl, ℕ, suc, ℤ, pos, true, false, not, [], ◌∷◌, none, some, ok, ltb_ℤ,
  ◌⊎◌, replicate,
}
use zksync_python.Python.Text.{Text, text}
use zksync_python.Python.Decimal.{Decimal, decimal_of_int, fix, scaleb, rescaled, int_of_decimal}
use zksync_python.Python.Effects.{◌>>=◌}
use zksync_python.Json.{item, lookup}
use zksync_python.Types.{plain}
use zksync_python.Tokens.{eth, is_eth, from_decimal}
use zksync_python.Contracts.{
  Web3, Contract, text_value, int_value, update, call_params, call_method, deposit_eth,
  deposit_erc20, at_least, erc20_is_deposit_approved,
}
use zksync_python.Contracts.Abi.{
  AbiCaches, Cached, zksync, abi_of, Later, now, asked, elapsed, ierc20, read_abi, zksync_abi,
  erc20_abi, abi_kept,
}
use zksync_python.Contracts.Deposits.{deposit, erc20_contract, is_deposit_approved}
use zksync_python.Contracts.Calls.{IsSent, deposit_sends}
use zksync_python.Contracts.Approvals.{is_deposit_approved_answers, approve_deposit_sends}
use zksync_python.Contracts.Deposits.{approve_deposit, units_of}
use zksync_python.Contracts.{erc20_approve_deposit}
use zksync_python.Tests.Data.{sender, recipient}

abbrev chain : Web3
chain = record {
  World = ℕ;
  read_text = λ name n. (ok name, suc n);
  loads = λ s. ok (object ((text "abi", str s) ∷ []));
  Handle = Text;
  contract = λ address abi. ok address;
  build_transaction = λ handle name args params n. (ok params, n);
  get_transaction_count = λ address n. (ok (pos 4), n);
  send_raw_transaction = λ raw n. (ok (str raw), suc n);
  wait_for_transaction_receipt = λ hash n. (ok hash, suc n);
  call = λ handle name args n. (ok (int_value (pos 100)), n);
}

abbrev zksync_at : Contract chain
zksync_at = record {
  handle = recipient;
  contract_address = recipient;
  account = record { address = sender; sign_transaction = λ transaction. ok (replicate 3 1) };
}

abbrev empty : AbiCaches
empty = record { zksync_abi_cache = none; ierc20_abi_cache = none }

abbrev both : AbiCaches
both = record {
  zksync_abi_cache = some (str (text "ZkSync.json"));
  ierc20_abi_cache = some (str (text "IERC20.json"));
}

abbrev first_read : Cached chain
first_read = (record empty { zksync_abi_cache = some (str (text "ZkSync.json")) }, 1)

abi_run : abi_of chain zksync (empty, 0) ≡ (ok (str (text "ZkSync.json")), first_read)
unfolding zksync_abi read_abi item lookup ◌>>=◌
abi_run = refl

both_run : (abi_of chain ierc20 first_read).1 ≡ (both, 2)
unfolding erc20_abi read_abi item lookup ◌>>=◌
both_run = refl

both-Later : Later chain first_read (both, 9)
both-Later =
    let second : Later chain first_read (abi_of chain ierc20 first_read).1 = asked ierc20 now in
    let known : Later chain first_read (both, 2) = rw both_run at second in elapsed 9 known

abi_kept_example : abi_of chain zksync (both, 9) ≡ (ok (str (text "ZkSync.json")), (both, 9))
abi_kept_example =
    abi_kept chain zksync (str (text "ZkSync.json")) (empty, 0) first_read (both, 9) (λ same. cc)
      abi_run both-Later

deposit_run :
    deposit chain zksync_at eth (decimal_of_int (pos 2)) sender 5 ≡ (ok (str (replicate 3 1)), 7)
unfolding deposit deposit_eth deposit_erc20 call_method call_params update is_eth from_decimal
    scaleb rescaled fix int_of_decimal decimal_of_int ◌>>=◌
deposit_run = refl

deposit_sends_example :
    ((is_eth eth ≡ true)
      × IsSent chain zksync_at
          (text "depositETH")
          (text_value sender ∷ [])
          (some (from_decimal (plain eth) (decimal_of_int (pos 2))))
          5
          (str (replicate 3 1))
          7)
    ⊎ ((is_eth eth ≡ false)
        × IsSent chain zksync_at
            (text "depositERC20")
            (text_value eth.address
              ∷ int_value (from_decimal (plain eth) (decimal_of_int (pos 2)))
              ∷ text_value sender
              ∷ [])
            none
            5
            (str (replicate 3 1))
            7)
deposit_sends_example =
    deposit_sends chain zksync_at eth (decimal_of_int (pos 2)) sender 5 7 (str (replicate 3 1))
      deposit_run

approved_run :
    is_deposit_approved chain zksync_at eth (some (pos 50)) (both, 9) ≡ (ok true, (both, 9))
unfolding is_deposit_approved erc20_is_deposit_approved erc20_contract erc20_abi at_least ◌>>=◌
approved_run = refl

is_deposit_approved_answers_example :
    (limit allowance : ℤ) × (contract : Contract chain) × (s1 : Cached chain) × (some (pos 50)
      ≡ some limit)
    × (erc20_contract chain eth.address zksync_at.account (both, 9) ≡ (ok contract, s1))
    × (chain.call contract.handle
          (text "allowance")
          (text_value contract.account.address ∷ text_value recipient ∷ [])
          s1.1
        ≡ (ok (int_value allowance), 9))
    × (true ≡ not (ltb_ℤ allowance limit))
is_deposit_approved_answers_example =
    is_deposit_approved_answers chain zksync_at eth (some (pos 50)) (both, 9) (both, 9) true
      approved_run

approve_run : approve_deposit chain zksync_at eth (some (decimal_of_int (pos 2))) (empty, 0) ≡ (
  ok (str (replicate 3 1)),
  (record empty { ierc20_abi_cache = some (str (text "IERC20.json")) }, 3),
)
unfolding approve_deposit erc20_approve_deposit erc20_contract erc20_abi read_abi item lookup
    units_of call_method call_params update from_decimal scaleb rescaled fix int_of_decimal
    decimal_of_int ◌>>=◌
approve_run = refl

approve_deposit_sends_example :
    (amount : Decimal) × (contract : Contract chain) × (abi : Json) × (s1 : Cached chain) × (some
        (decimal_of_int (pos 2))
      ≡ some amount)
    × (erc20_abi chain (empty, 0) ≡ (ok abi, s1))
    × (chain.contract eth.address abi ≡ ok contract.handle)
    × (contract.account ≡ zksync_at.account)
    × IsSent chain contract
        (text "approve")
        (text_value recipient ∷ int_value (from_decimal (plain eth) amount) ∷ [])
        none
        s1.1
        (str (replicate 3 1))
        3
approve_deposit_sends_example =
    approve_deposit_sends chain zksync_at eth (some (decimal_of_int (pos 2))) (empty, 0)
      (record empty { ierc20_abi_cache = some (str (text "IERC20.json")) }, 3) (str (replicate 3 1))
      approve_run
