-- ===== src/Messages.antt =====
-- zksync_sdk/types/transactions.py: the text of a transaction that the Ethereum key signs.
pub mod Total
use zksync_python.Prelude.{
  ℕ, zero, suc, true, false, [], ◌∷◌, ◌++◌, ℤ, pos, eqb_ℤ, if◌then◌else◌, Result, ok, ◌>>=◌,
}
use zksync_python.Python.Text.{Text, text, lower, starts_with}
use zksync_python.Python.Decimal.{str_int}
use zksync_python.Types.{
  base, plain, Token, ChangePubKey, Transfer, Withdraw, ForcedExit, Order, Swap, MintNft,
  WithdrawNft, EncodedTx, change_pub_key, transfer, withdraw, forced_exit, swap, mint_nft,
  withdraw_nft,
}
use zksync_python.Tokens.{decimal_str_amount}

-- `s.replace('sync:', '')`, where `skip` characters of an occurrence are still to be dropped.
unfoldable pub remove_sync : ℕ → Text → Text
remove_sync skip [] = []
remove_sync (suc skip) (c ∷ s) = remove_sync skip s
remove_sync zero (c ∷ s) = elim (starts_with (text "sync:") (c ∷ s)) [
  | true ↦ remove_sync 4 s
  | false ↦ c ∷ remove_sync 0 s
]

-- A line that stands only where the number is not zero.
abbrev pub unless_zero : ℤ → Result Text → Result Text
unless_zero n line = if eqb_ℤ n (pos 0) then ok [] else line

unfoldable pub change_pub_key_text : ChangePubKey → Text
change_pub_key_text tx =
    (text "Set signing key: " ++ lower (remove_sync 0 tx.new_pk_hash))
    ++ (if eqb_ℤ tx.fee (pos 0)
        then []
        else text "\nFee: " ++ (str_int tx.fee ++ (text " " ++ tx.token.symbol)))

-- "Fee: {decimal amount} {symbol}"
abbrev pub fee_line : Token → ℤ → Result Text
fee_line token fee = do
  amount ← decimal_str_amount (plain token) fee
  ok (text "Fee: " ++ (amount ++ (text " " ++ token.symbol)))

unfoldable pub transfer_text : Transfer → Result Text
transfer_text tx = do
  sent ← unless_zero tx.amount (do
    amount ← decimal_str_amount tx.token tx.amount
    ok (
        text "Transfer "
        ++ (amount
            ++ (text " "
                ++ ((base tx.token).symbol
                    ++ (text " to: " ++ (lower tx.to_address ++ text "\n")))))))
  paid ← unless_zero tx.fee (do
    fee ← decimal_str_amount tx.token tx.fee
    ok (text "Fee: " ++ (fee ++ (text " " ++ ((base tx.token).symbol ++ text "\n")))))
  ok (sent ++ (paid ++ (text "Nonce: " ++ str_int tx.nonce)))

unfoldable pub withdraw_text : Withdraw → Result Text
withdraw_text tx = do
  sent ← unless_zero tx.amount (do
    amount ← decimal_str_amount (plain tx.token) tx.amount
    ok (
        text "Withdraw "
        ++ (amount
            ++ (text " "
                ++ (tx.token.symbol ++ (text " to: " ++ (lower tx.to_address ++ text "\n")))))))
  paid ← unless_zero tx.fee (do fee ← fee_line tx.token tx.fee; ok (fee ++ text "\n"))
  ok (sent ++ (paid ++ (text "Nonce: " ++ str_int tx.nonce)))

unfoldable pub forced_exit_text : ForcedExit → Result Text
forced_exit_text tx = do
  fee ← fee_line tx.token tx.fee
  ok (
      text "ForcedExit "
      ++ (tx.token.symbol
          ++ (text " to: "
              ++ (lower tx.target
                  ++ (text "\n" ++ (fee ++ (text "\nNonce: " ++ str_int tx.nonce)))))))

-- `Order.human_readable_message`
unfoldable pub order_text : Order → Result Text
order_text order = do
  let pair = order.token_sell.symbol ++ (text " -> " ++ order.token_buy.symbol)
  header ←
      (if eqb_ℤ order.amount (pos 0) then ok (text "Limit order for " ++ pair) else do
        amount ← decimal_str_amount (plain order.token_sell) order.amount
        ok (text "Order for " ++ (amount ++ (text " " ++ pair))))
  ok (
      header
      ++ (text "\nRatio: "
          ++ (str_int order.ratio.numerator
              ++ (text ":"
                  ++ (str_int order.ratio.denominator
                      ++ (text "\nAddress: "
                          ++ (lower order.recipient
                              ++ (text "\nNonce: " ++ str_int order.nonce))))))))

unfoldable pub swap_text : Swap → Result Text
swap_text tx = do
  paid ← unless_zero tx.fee (do
    fee ← decimal_str_amount (plain tx.fee_token) tx.fee
    ok (text "Swap fee: " ++ (fee ++ (text " " ++ (tx.fee_token.symbol ++ text "\n")))))
  ok (paid ++ (text "Nonce: " ++ str_int tx.nonce))

unfoldable pub mint_nft_text : MintNft → Result Text
mint_nft_text tx = do
  fee ← fee_line tx.fee_token tx.fee
  ok (
      text "MintNFT "
      ++ (tx.content_hash
          ++ (text " for: "
              ++ (lower tx.recipient
                  ++ (text "\n" ++ (fee ++ (text "\nNonce: " ++ str_int tx.nonce)))))))

unfoldable pub withdraw_nft_text : WithdrawNft → Result Text
withdraw_nft_text tx = do
  fee ← fee_line tx.fee_token tx.fee
  ok (
      text "WithdrawNFT "
      ++ (str_int tx.token_id
          ++ (text " to: "
              ++ (lower tx.to_address
                  ++ (text "\n" ++ (fee ++ (text "\nNonce: " ++ str_int tx.nonce)))))))

unfoldable pub human_readable_message : EncodedTx → Result Text
human_readable_message (change_pub_key tx) = ok (change_pub_key_text tx)
human_readable_message (transfer tx) = transfer_text tx
human_readable_message (withdraw tx) = withdraw_text tx
human_readable_message (forced_exit tx) = forced_exit_text tx
human_readable_message (swap tx) = swap_text tx
human_readable_message (mint_nft tx) = mint_nft_text tx
human_readable_message (withdraw_nft tx) = withdraw_nft_text tx
