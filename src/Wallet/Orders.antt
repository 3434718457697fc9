-- ===== src/Wallet/Orders.antt =====
-- zksync_sdk/wallet.py: the orders of a swap.
use zksync_python.Prelude.{ℤ, pos, [], ◌∷◌, Option, none, some, Result, ok}
use zksync_python.Python.Text.{Text}
use zksync_python.Python.Decimal.{Decimal, decimal_of_int}
use zksync_python.Python.Fraction.{Fraction, fraction}
use zksync_python.Types.{Token, plain, RatioType, wei, token, Order}
use zksync_python.Tokens.{TokenLike, from_decimal}
use zksync_python.Signers.{order, sign_tx}
use zksync_python.Wallet.{
  Context, Action, ◌>>=◌, pure, lift, address, resolve_token, get_account_id, default_valid_until,
}
use zksync_python.Wallet.Build.{nonce_or_asked}

-- A ratio of whole tokens as a ratio of their lowest units.
unfoldable pub unit_ratio : RatioType → Token → Token → Fraction → Result Fraction
unit_ratio wei token_sell token_buy ratio = ok ratio
unit_ratio token token_sell token_buy ratio =
    fraction (from_decimal (plain token_sell) (decimal_of_int ratio.numerator))
      (from_decimal (plain token_buy) (decimal_of_int ratio.denominator))

module _ (c : Context) where
  -- `recipient or self.address()`
  abbrev pub recipient_or_self : Option Text → Text
  recipient_or_self none = address c
  recipient_or_self (some []) = address c
  recipient_or_self (some (ch ∷ recipient)) = ch ∷ recipient

  unfoldable pub get_order :
      TokenLike
      → TokenLike
      → Fraction
      → RatioType
      → Decimal
      → Option Text
      → Option ℤ
      → ℤ
      → ℤ
      → Action c Order
  get_order sell buy ratio ratio_type amount recipient nonce valid_from valid_until = do
    nonce ← nonce_or_asked c nonce
    token_sell ← resolve_token c sell
    token_buy ← resolve_token c buy
    ratio ← lift c (unit_ratio ratio_type token_sell token_buy ratio)
    account_id ← get_account_id c
    let unsigned : Order = record {
      account_id = account_id;
      recipient = recipient_or_self recipient;
      nonce = nonce;
      token_sell = token_sell;
      token_buy = token_buy;
      amount = from_decimal (plain token_sell) amount;
      ratio = ratio;
      valid_from = valid_from;
      valid_until = valid_until;
      signature = none;
      eth_signature_field = none;
      eth_signature = none;
    }
    eth_signature ← lift c (c.eth_signer.sign_tx (order unsigned))
    let with_eth : Order = record unsigned { eth_signature = some eth_signature }
    signature ← lift c (sign_tx c.zk_signer (order with_eth))
    pure c (record with_eth { signature = some signature })

  -- The arguments are passed by position: `valid_from` arrives as the nonce and `valid_until` as the
  -- start of the validity.
  unfoldable pub get_limit_order :
      TokenLike → TokenLike → Fraction → RatioType → Option Text → ℤ → ℤ → Action c Order
  get_limit_order sell buy ratio ratio_type recipient valid_from valid_until =
      get_order sell buy ratio ratio_type (decimal_of_int (pos 0)) recipient (some valid_from)
        valid_until default_valid_until
