-- ===== src/Python/IntText.antt =====
-- `int(x)` for a value of JSON. White space and digits are those of ASCII.
use zksync_python.Prelude.{
  ℕ, ◌+◌, ◌-◌, ◌*◌, ℤ, pos, neg_ℕ, Bool, true, false, not, ◌&&◌, ◌||◌, [], ◌∷◌, reverse, Option,
  none, some, leb, ◌==◌, if◌then◌else◌, Result, ok, err, or_raise, value_error, type_error, Json,
  null, bool, int, str, arr, obj,
}
use zksync_python.Python.Text.{Text}

abbrev pub is_digit : ℕ → Bool
is_digit c = leb b'0' c && leb c b'9'

abbrev pub is_space : ℕ → Bool
is_space c = c == b' ' || (leb 9 c && leb c 13) || (leb 28 c && leb c 31)

-- The value of `acc` with the digits behind it. One underscore may stand between two digits: after
-- it, and at the start, a digit has to come.
unfoldable pub int_digits : ℕ → Bool → Text → Option ℕ
int_digits acc true [] = none
int_digits acc false [] = some acc
int_digits acc start (c ∷ s) =
    let after_digit = int_digits (acc * 10 + (c - b'0')) false s in
    let after_underscore = int_digits acc true s in
    if is_digit c then after_digit else if c == b'_' && not start then after_underscore else none

unfoldable pub strip_left : Text → Text
strip_left [] = []
strip_left (c ∷ s) = let rest = strip_left s in if is_space c then rest else c ∷ s

unfoldable pub strip : Text → Text
unfolding strip_left
strip s = reverse (strip_left (reverse (strip_left s)))

abbrev negated : Option ℕ → Option ℤ
negated none = none
negated (some n) = some (neg_ℕ n)

abbrev positive : Option ℕ → Option ℤ
positive none = none
positive (some n) = some (pos n)

unfoldable pub signed_digits : Text → Option ℤ
unfolding int_digits
signed_digits [] = none
signed_digits (c ∷ s) =
    if c == b'-'
    then negated (int_digits 0 true s)
    else if c == b'+'
    then positive (int_digits 0 true s)
    else positive (int_digits 0 true (c ∷ s))

unfoldable pub int_of_json : Json → Result ℤ
unfolding signed_digits strip
int_of_json (int z) = ok z
int_of_json (bool true) = ok (pos 1)
int_of_json (bool false) = ok (pos 0)
int_of_json (str s) = or_raise (signed_digits (strip s)) value_error
int_of_json null = err type_error
int_of_json (arr xs) = err type_error
int_of_json (obj fields) = err type_error
