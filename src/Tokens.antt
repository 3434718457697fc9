-- ===== src/Tokens.antt =====
-- zksync_sdk/types/transactions.py: the methods of `Token` and `Tokens`, and `NFT.decimal_amount` of
-- zksync_sdk/types/responses.py.
pub mod Lookup
pub mod Texts
pub mod ReadBack
pub mod Shown
use zksync_python.Prelude.{
  ℕ, zero, suc, Bool, true, false, not, ◌&&◌, List, [], ◌∷◌, ◌++◌, Option, none, some, ℤ, pos,
  neg_ℕ, eqb_ℤ, ◌==◌, if◌then◌else◌, Result, ok, err, index_error, ◌>>=◌,
}
use zksync_python.Python.Text.{Text, text, eqb_text}
use zksync_python.Python.Decimal.{Decimal, decimal_of_int, scaleb, format_fixed, int_of_decimal}
use zksync_python.Types.{Token, Nft, AnyToken, plain, nft, base}

abbrev pub default_token_address : Text
default_token_address = text "0x0000000000000000000000000000000000000000"

-- `Token.eth()`
abbrev pub eth : Token
eth = record { address = default_token_address; id = pos 0; symbol = text "ETH"; decimals = 18 }

unfoldable pub is_eth : Token → Bool
is_eth token = eqb_text token.symbol (text "ETH") && eqb_text token.address default_token_address

-- An NFT has a method of its own.
unfoldable pub decimal_amount : AnyToken → ℤ → Decimal
decimal_amount (plain token) amount = scaleb (decimal_of_int amount) (neg_ℕ token.decimals)
decimal_amount (nft token) amount = decimal_of_int amount

unfoldable pub from_decimal : AnyToken → Decimal → ℤ
from_decimal token amount = int_of_decimal (scaleb amount (pos (base token).decimals))

-- `s.rstrip("0")`
unfoldable pub rstrip_zeros : Text → Text
rstrip_zeros [] = []
rstrip_zeros (c ∷ s) =
    let rest = rstrip_zeros s in if c == b'0' && eqb_text rest [] then [] else c ∷ rest

-- `s[-1]`
unfoldable pub last : Text → Result ℕ
last [] = err index_error
last (c ∷ []) = ok c
last (c ∷ d ∷ s) = last (d ∷ s)

-- `'.' in s`
unfoldable pub has_point : Text → Bool
has_point [] = false
has_point (c ∷ s) = if c == b'.' then true else has_point s

-- What follows the call of `rstrip`.
unfoldable pub with_point : Text → Result Text
with_point d_str = do
  end ← last d_str
  ok (
      if end == b'.'
      then d_str ++ text "0"
      else if not (has_point d_str)
      then d_str ++ text ".0"
      else d_str)

unfoldable pub decimal_str_amount : AnyToken → ℤ → Result Text
decimal_str_amount token amount =
    with_point (rstrip_zeros (format_fixed (decimal_amount token amount) (base token).decimals))

-- `[token for token in self.tokens if ...]` and its first element
unfoldable pub find_first : (Token → Bool) → List Token → Option Token
find_first test [] = none
find_first test (token ∷ tokens) =
    let rest = find_first test tokens in if test token then some token else rest

unfoldable pub find_by_address : List Token → Text → Option Token
find_by_address tokens address = find_first (λ token. eqb_text token.address address) tokens

unfoldable pub find_by_id : List Token → ℤ → Option Token
find_by_id tokens token_id = find_first (λ token. eqb_ℤ token.id token_id) tokens

unfoldable pub find_by_symbol : List Token → Text → Option Token
find_by_symbol tokens symbol = find_first (λ token. eqb_text token.symbol symbol) tokens

-- `TokenLike`
pub data TokenLike : Type 0 where
  by_text : Text → TokenLike
  by_id : ℤ → TokenLike

abbrev pub or_else : Option Token → Option Token → Option Token
or_else none other = other
or_else (some token) other = some token

unfoldable pub find : List Token → TokenLike → Option Token
find tokens (by_id token_id) = find_by_id tokens token_id
find tokens (by_text name) = or_else (find_by_address tokens name) (find_by_symbol tokens name)
