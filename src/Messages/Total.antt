-- ===== src/Messages/Total.antt =====
-- The text of a transfer exists, if its token has decimals.
use zksync_python.Prelude.{
  ◌<◌, ◌≡◌, refl, Bool-cases, inl, inr, [], ◌++◌, ℤ, pos, eqb_ℤ, Result, ok, ◌>>=◌,
}
use zksync_python.Python.Text.{Text, text, lower}
use zksync_python.Types.{base, Transfer, transfer}
use zksync_python.Tokens.{decimal_str_amount}
use zksync_python.Tokens.Texts.{decimal_str_amount-ok}
use zksync_python.Messages.{unless_zero, transfer_text, human_readable_message}

line-ok :
    (n : ℤ) (amount : Result Text) (write : Text → Text)
    → (t : Text) × (amount ≡ ok t)
    → (line : Text) × (unless_zero n (amount >>= λ a. ok (write a)) ≡ ok line)
line-ok n amount write (t, run) = elim (Bool-cases (eqb_ℤ n (pos 0))) [
  | inl zero_amount ↦ ([], rw zero_amount refl)
  | inr nonzero ↦ (write t, rw (nonzero, run) refl)
]

pub human_readable_message-ok :
    (t : Transfer)
    → 0 < (base t.token).decimals
    → (message : Text) × (human_readable_message (transfer t) ≡ ok message)
unfolding human_readable_message transfer_text
human_readable_message-ok t h =
    let (sent, first) =
      line-ok t.amount (decimal_str_amount t.token t.amount)
        (λ amount.
          text "Transfer "
          ++ (amount
              ++ (text " "
                  ++ ((base t.token).symbol
                      ++ (text " to: " ++ (lower t.to_address ++ text "\n"))))))
        (decimal_str_amount-ok t.token t.amount h) in
    let (paid, second) =
      line-ok t.fee (decimal_str_amount t.token t.fee)
        (λ fee. text "Fee: " ++ (fee ++ (text " " ++ ((base t.token).symbol ++ text "\n"))))
        (decimal_str_amount-ok t.token t.fee h) in
    rw (first, second) (_, refl)
