-- ===== src/Tokens/Lookup.antt =====
-- The lookups of `Tokens` against a description of the token that they name.
use zksync_python.Prelude.{
  ℤ, ◌≡◌, ◌≢◌, refl, ap, Bool, true, List, [], ◌∷◌, ◌++◌, Option, none, some, All, Bool-cases, inl,
  inr, ◌⊎◌, eqb_ℤ, eqb_ℤ_sound, eqb_ℤ_refl,
}
use zksync_python.Python.Text.{Text, eqb_text, eqb_text_sound, eqb_text_refl}
use zksync_python.Types.{Token}
use zksync_python.Tokens.{
  find_first, find_by_address, find_by_id, find_by_symbol, TokenLike, by_text, by_id, or_else, find,
}

-- The first token of the list with the property.
abbrev pub IsFirst : (Token → Type 0) → List Token → Token → Type 0
IsFirst P tokens token =
    (front back : List Token) × (tokens ≡ front ++ (token ∷ back))
    × P token
    × All (λ u. ¬ P u) front

-- The outcome of a search for the first token with the property.
abbrev pub IsSearch : (Token → Type 0) → List Token → Option Token → Type 0
IsSearch P tokens none = All (λ u. ¬ P u) tokens
IsSearch P tokens (some token) = IsFirst P tokens token

-- A Boolean test that decides a property.
record Decides (test : Token → Bool) (P : Token → Type 0) : Type 0 where
  pub sound : (u : Token) → test u ≡ true → P u
  pub complete : (u : Token) → P u → test u ≡ true

find_first-IsSearch :
    (test : Token → Bool) (P : Token → Type 0) (tokens : List Token)
    → Decides test P
    → IsSearch P tokens (find_first test tokens)
unfolding find_first
find_first-IsSearch test P [] d = tt
find_first-IsSearch test P (token ∷ tokens) d = elim (Bool-cases (test token)) [
  | inl hit ↦ rw hit ([], tokens, refl, d.sound token hit, tt)
  | inr miss ↦
      let other : ¬ P token = λ p. cc (d.complete token p, miss) in
      rw miss (behind token other (find_first test tokens) (find_first-IsSearch test P tokens d))
]
  where
    behind :
        (token : Token)
        → ¬ P token
        → (found : Option Token) → IsSearch P tokens found
        → IsSearch P (token ∷ tokens) found
    behind token other none none_here = (other, none_here)
    behind token other (some t) (front, back, same, holds, before) =
        (token ∷ front, back, ap (λ l. token ∷ l) same, holds, (other, before))

address_test : (name : Text) → Decides (λ u. eqb_text u.address name) (λ u. u.address ≡ name)
address_test name = record {
  sound = λ u. eqb_text_sound u.address name;
  complete = λ u same. rw same (eqb_text_refl name);
}

symbol_test : (name : Text) → Decides (λ u. eqb_text u.symbol name) (λ u. u.symbol ≡ name)
symbol_test name = record {
  sound = λ u. eqb_text_sound u.symbol name;
  complete = λ u same. rw same (eqb_text_refl name);
}

id_test : (id : ℤ) → Decides (λ u. eqb_ℤ u.id id) (λ u. u.id ≡ id)
id_test id = record {
  sound = λ u. eqb_ℤ_sound u.id id;
  complete = λ u same. rw same (eqb_ℤ_refl id);
}

-- A text names the first token with that address, or if there is none the first with that symbol.
-- A number names the first token with that id.
abbrev pub IsNamed : List Token → TokenLike → Option Token → Type 0
IsNamed tokens (by_id id) found = IsSearch (λ u. u.id ≡ id) tokens found
IsNamed tokens (by_text name) found =
    ((token : Token) × (found ≡ some token) × IsFirst (λ u. u.address ≡ name) tokens token)
    ⊎ (All (λ u. u.address ≢ name) tokens × IsSearch (λ u. u.symbol ≡ name) tokens found)

-- `find` returns, for a number, the first token of the list with that id and, for a text, the first
-- with that address or, where no token has that address, the first with that symbol. It returns None
-- exactly where no token is so named.
pub find-IsNamed : (tokens : List Token) (name : TokenLike) → IsNamed tokens name (find tokens name)
unfolding find find_by_address find_by_symbol find_by_id
find-IsNamed tokens (by_id id) = find_first-IsSearch _ _ tokens (id_test id)
find-IsNamed tokens (by_text name) =
    address_first (find_first (λ u. eqb_text u.address name) tokens)
      (find_first-IsSearch _ _ tokens (address_test name))
  where
    address_first :
        (hit : Option Token)
        → IsSearch (λ u. u.address ≡ name) tokens hit
        → IsNamed tokens
            (by_text name)
            (or_else hit (find_first (λ u. eqb_text u.symbol name) tokens))
    address_first (some token) first = inl (token, refl, first)
    address_first none absent = inr (absent, find_first-IsSearch _ _ tokens (symbol_test name))
