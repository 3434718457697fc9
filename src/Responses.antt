-- ===== src/Responses.antt =====
-- zksync_sdk/types/responses.py: the names under which the models of pydantic read their fields.
use zksync_python.Prelude.{
  ℕ, ◌-◌, Bool, false, ◌&&◌, ◌||◌, List, [], ◌∷◌, ◌++◌, leb, ◌==◌, if◌then◌else◌, Option,
}
use zksync_python.Python.Text.{Text, lower, lower_char}
use zksync_python.Provider.{BlockInfo}

abbrev is_upper : ℕ → Bool
is_upper c = leb b'A' c && leb c b'Z'

abbrev is_lower : ℕ → Bool
is_lower c = leb b'a' c && leb c b'z'

abbrev upper_char : ℕ → ℕ
upper_char c = if is_lower c then c - 32 else c

-- `str.title` on ASCII: a letter behind a letter is made small, each other one great.
abbrev title_behind : Bool → Text → Text
title_behind letter [] = []
title_behind letter (c ∷ s) =
    let rest = title_behind (is_upper c || is_lower c) s in
    if letter then lower_char c ∷ rest else upper_char c ∷ rest

abbrev title : Text → Text
title = title_behind false

abbrev prepend : ℕ → Text × List Text → Text × List Text
prepend c (first, others) = (c ∷ first, others)

-- `s.split('_')`: the first part and the others.
unfoldable pub split_underscore : Text → Text × List Text
split_underscore [] = ([], [])
split_underscore (c ∷ s) =
    let parts = split_underscore s in if c == b'_' then ([], parts.0 ∷ parts.1) else prepend c parts

abbrev titles : List Text → Text
titles [] = []
titles (s ∷ others) = title s ++ titles others

-- `to_camel`
unfoldable pub to_camel : Text → Text
to_camel string = let (first, others) = split_underscore string in lower first ++ titles others

-- `TransactionDetails`, which stands only in the annotation of `get_tx_receipt`.
pub record TransactionDetails : Type 0 where
  pub executed : Bool
  pub success : Bool
  pub fail_reason : Option Text
  pub block : BlockInfo
