-- ===== src/Tests/Decimals.antt =====
-- Texts that `Decimal` takes and that it refuses, and the text of an amount.
use zksync_python.Prelude.{◌≡◌, refl, pos, negsuc, true, false, none, some, ok, arith}
use zksync_python.Python.Text.{Text, text}
use zksync_python.Python.Decimal.{Decimal}
use zksync_python.Types.{plain}
use zksync_python.Tokens.{eth, from_decimal, decimal_str_amount}
use zksync_python.Tokens.Shown.{decimal_str_amount-from_decimal}
use zksync_python.Python.DecimalText.{decimal_of_text, finite, infinite, nan}

decimal_texts :
    (decimal_of_text (text " -1_234.50e+3\n")
      ≡ some (finite (record { negative = true; coefficient = 123450; exponent = pos 1 })))
    × (decimal_of_text (text ".5")
        ≡ some (finite (record { negative = false; coefficient = 5; exponent = negsuc 0 })))
    × (decimal_of_text (text "7.")
        ≡ some (finite (record { negative = false; coefficient = 7; exponent = pos 0 })))
    × (decimal_of_text (text "-Infinity") ≡ some (infinite true))
    × (decimal_of_text (text "sNaN12") ≡ some (nan false true 12))
    × (decimal_of_text (text ".") ≡ none)
    × (decimal_of_text (text "1e") ≡ none)
    × (decimal_of_text (text "1.2.3") ≡ none)
    × (decimal_of_text (text "") ≡ none)
unfolding decimal_of_text
decimal_texts = (refl, refl, refl, refl, refl, refl, refl, refl, refl)

decimal_str_amount-from_decimal_example :
    (shown : Text) × (d : Decimal) × (decimal_str_amount (plain eth) (pos 1234500000000000000)
      ≡ ok shown)
    × (decimal_of_text shown ≡ some (finite d))
    × (from_decimal (plain eth) d ≡ pos 1234500000000000000)
decimal_str_amount-from_decimal_example =
    decimal_str_amount-from_decimal eth 1234500000000000000 (omega arith) (omega arith)
