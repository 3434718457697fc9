-- ===== src/Python/Hex.antt =====
-- Hexadecimal: `bytes.hex`, `bytes.fromhex`, `hex`, `str.zfill`, and `int.to_bytes`.
use zksync_python.Prelude.{
  ℕ, suc, ◌+◌, ◌-◌, ◌*◌, ◌/◌, ◌%◌, ◌^◌, ◌<◌, ◌≡◌, refl, sym, ap, ◌∙◌, Bool, true, false, ◌&&◌, ◌||◌,
  List, [], ◌∷◌, ◌++◌, length, replicate, All, map, ltb, leb, ◌==◌, if◌then◌else◌, arith, ℤ, pos,
  negsuc, Result, ok, err, ◌>>=◌, Option, none, some, or_raise, value_error, overflow_error,
}
use zksync_python.Python.Text.{Text, text, lower, lower_char}
use zksync_python.Python.Digits.{fixed_digits, digits}

abbrev pub Bytes : Type 0
Bytes = List ℕ

-- `val.to_bytes(length, byteorder='big')`
unfoldable pub to_bytes : ℤ → ℕ → Result Bytes
to_bytes (pos n) length =
    if ltb n (256 ^ length) then ok (fixed_digits 256 length n []) else err overflow_error
to_bytes (negsuc n) length = err overflow_error

abbrev pub hex_char : ℕ → ℕ
hex_char d = if ltb d 10 then b'0' + d else b'a' + (d - 10)

-- `bytes.hex()`
abbrev pub bytes_hex : Bytes → Text
bytes_hex [] = []
bytes_hex (b ∷ bs) = hex_char (b / 16) ∷ hex_char (b % 16) ∷ bytes_hex bs

abbrev pub hex_value : ℕ → Option ℕ
hex_value c =
    if leb b'0' c && leb c b'9'
    then some (c - b'0')
    else if leb b'a' c && leb c b'f'
    then some (c - b'a' + 10)
    else if leb b'A' c && leb c b'F'
    then some (c - b'A' + 10)
    else none

-- The six characters that `fromhex` skips between two bytes.
abbrev pub is_space : ℕ → Bool
is_space c = leb 9 c && leb c 13 || c == b' '

abbrev pub read_byte : ℕ → ℕ → Result ℕ
read_byte c d = do
  high ← or_raise (hex_value c) value_error
  low ← or_raise (hex_value d) value_error
  ok (high * 16 + low)

-- `bytes.fromhex(s)`
unfoldable pub fromhex : Text → Result Bytes
fromhex [] = ok []
fromhex (c ∷ []) = if is_space c then ok [] else err value_error
fromhex (c ∷ d ∷ s) = elim (is_space c) [
  | true ↦ fromhex (d ∷ s)
  | false ↦ read_byte c d >>= λ b. fromhex s >>= λ bs. ok (b ∷ bs)
]

-- `hex(n)`
unfoldable pub hex : ℤ → Text
hex (pos n) = text "0x" ++ map hex_char (digits 16 n)
hex (negsuc n) = text "-0x" ++ map hex_char (digits 16 (suc n))

-- `s.zfill(width)`, for a text that does not begin with a sign
abbrev pub zfill : Text → ℕ → Text
zfill s width = replicate (width - length s) b'0' ++ s

hex_value-hex_char : (d : ℕ) → d < 16 → hex_value (hex_char d) ≡ some d
hex_value-hex_char d h = ground arith

space-hex_char : (d : ℕ) → d < 16 → is_space (hex_char d) ≡ false
space-hex_char d h = ground arith

-- Two digits of sixteen make a byte, digit pairs in order.
abbrev pub pair_digits : List ℕ → List ℕ
pair_digits [] = []
pair_digits (x ∷ []) = []
pair_digits (x ∷ y ∷ ds) = (x * 16 + y) ∷ pair_digits ds

-- `fromhex` on two characters or more, as a test.
fromhex_step :
    (c d : ℕ) (s : Text)
    → fromhex (c ∷ d ∷ s) ≡ (
        if is_space c
        then fromhex (d ∷ s)
        else (read_byte c d >>= λ b. fromhex s >>= λ bs. ok (b ∷ bs)))
unfolding fromhex
fromhex_step c d s = pick (is_space c) (fromhex (d ∷ s)) _
  where
    pick :
        (t : Bool) (x y : Result Bytes) → (elim t [ true ↦ x | false ↦ y ]) ≡ (if t then x else y)
    pick true x y = refl
    pick false x y = refl

pub fromhex-pair :
    (x y : ℕ) (s : Text) (bs : Bytes)
    → x < 16
    → y < 16
    → fromhex s ≡ ok bs
    → fromhex (hex_char x ∷ hex_char y ∷ s) ≡ ok ((x * 16 + y) ∷ bs)
fromhex-pair x y s bs hx hy h =
    rw (fromhex_step, space-hex_char x hx, hex_value-hex_char x hx, hex_value-hex_char y hy, h)

-- `fromhex` reads what `hex` of a bytes object writes.
pub fromhex-bytes_hex : (bs : Bytes) → All (λ b. b < 256) bs → fromhex (bytes_hex bs) ≡ ok bs
fromhex-bytes_hex [] h = unfold fromhex in refl
fromhex-bytes_hex (b ∷ bs) (hb, h) =
    let whole : b / 16 * 16 + b % 16 ≡ b = omega arith in
    fromhex-pair (b / 16) (b % 16) (bytes_hex bs) bs (omega arith) (omega arith)
      (fromhex-bytes_hex bs h)
    ∙ ap (λ v. ok (v ∷ bs)) whole

lower_value : (c : ℕ) → hex_value (lower_char c) ≡ hex_value c
lower_value c = ground arith

lower_space : (c : ℕ) → is_space (lower_char c) ≡ is_space c
lower_space c = ground arith

-- Capitals stand for the same bytes.
pub fromhex-lower : (s : Text) → fromhex (lower s) ≡ fromhex s
fromhex-lower [] = refl
fromhex-lower (c ∷ []) = unfold fromhex in rw (lower_space c)
fromhex-lower (c ∷ d ∷ s) =
    fromhex_step (lower_char c) (lower_char d) (lower s)
    ∙ rw (lower_space c, lower_value c, lower_value d, fromhex-lower (d ∷ s), fromhex-lower s)
        (sym (fromhex_step c d s))
