-- ===== src/Wallet/Ordering.antt =====
-- What `get_order` and `get_limit_order` return.
use zksync_python.Wallet.Steps.{IsNonce, nonce_or_asked-IsNonce}
use zksync_python.Prelude.{
  inl, inr, ok-injective, ℤ, pos, ◌≡◌, refl, sym, ap, ◌∙◌, Option, none, some, ok,
}
use zksync_python.Python.Text.{Text}
use zksync_python.Python.Decimal.{Decimal, decimal_of_int}
use zksync_python.Python.Fraction.{fraction, Fraction}
use zksync_python.Types.{wei, token, plain, TxEthSignature, TxSignature, Order, RatioType, Token}
use zksync_python.Tokens.{TokenLike, from_decimal}
use zksync_python.Encoding.{order_message}
use zksync_python.Signers.{order, sign_tx}
use zksync_python.Wallet.{get_account_id, Context, Env, resolve_token, default_valid_until}
use zksync_python.Wallet.Orders.{get_order, get_limit_order, unit_ratio, recipient_or_self}
use zksync_python.Wallet.Runs.{after, lift-eq-ok, pure-eq-ok}

-- A ratio of lowest units is taken as it is. One of whole tokens becomes the fraction of the
-- numerator in units of the token that is sold and the denominator in units of the other, reduced.
abbrev pub IsUnitRatio : RatioType → Token → Token → Fraction → Fraction → Type 0
IsUnitRatio wei token_sell token_buy ratio units = units ≡ ratio
IsUnitRatio token token_sell token_buy ratio units =
    let sold = from_decimal (plain token_sell) (decimal_of_int ratio.numerator) in
    let bought = from_decimal (plain token_buy) (decimal_of_int ratio.denominator) in
    fraction sold bought ≡ ok units

unit_ratio-IsUnitRatio :
    (type : RatioType) (token_sell token_buy : Token) (ratio units : Fraction)
    → unit_ratio type token_sell token_buy ratio ≡ ok units
    → IsUnitRatio type token_sell token_buy ratio units
unfolding unit_ratio
unit_ratio-IsUnitRatio wei token_sell token_buy ratio units h = sym (ok-injective h)
unit_ratio-IsUnitRatio token token_sell token_buy ratio units h = h

module _ (c : Context) where
  -- The signatures are no part of the message.
  order_signature :
      (o : Order) (eth : Option TxEthSignature) (zk : Option TxSignature)
      → sign_tx c.zk_signer (order (record o { eth_signature = eth; signature = zk }))
        ≡ sign_tx c.zk_signer (order o)
  unfolding sign_tx order_message
  order_signature o eth zk = refl

  -- The order that `get_order` returns has the nonce that was given or that the server named, the
  -- times and the recipient (by default the wallet) in its fields, the tokens that `resolve_token`
  -- returned for the two names, one after the other, the amount in the lowest unit of the token that
  -- is sold, the ratio in lowest units, and the account id that `get_account_id` returned last. It
  -- carries the zkSync signature of the order as it is returned and, in `eth_signature`, the Ethereum
  -- signature of the order without the two. The field `ethSignature` stays empty.
  pub get_order_signed :
      (sell buy : TokenLike) (ratio : Fraction) (ratio_type : RatioType) (amount : Decimal)
      (recipient : Option Text) (nonce : Option ℤ) (valid_from valid_until : ℤ) (s s' : Env c)
      (o : Order)
      → get_order c sell buy ratio ratio_type amount recipient nonce valid_from valid_until s
        ≡ (ok o, s')
      → (token_sell token_buy : Token) × (units : Fraction) × (zk : TxSignature)
        × (eth : TxEthSignature) × (id : Option ℤ) × (n : ℤ) × (s1 s2 s3 : Env c) × IsNonce c nonce
            n s s1
        × (resolve_token c sell s1 ≡ (ok token_sell, s2))
        × (resolve_token c buy s2 ≡ (ok token_buy, s3))
        × IsUnitRatio ratio_type token_sell token_buy ratio units
        × (get_account_id c s3 ≡ (ok id, s'))
        × (o ≡ record {
          account_id = id;
          recipient = recipient_or_self c recipient;
          nonce = n;
          token_sell = token_sell;
          token_buy = token_buy;
          amount = from_decimal (plain token_sell) amount;
          ratio = units;
          valid_from = valid_from;
          valid_until = valid_until;
          signature = some zk;
          eth_signature_field = none;
          eth_signature = some eth;
        })
        × (sign_tx c.zk_signer (order o) ≡ ok zk)
        × (c.eth_signer.sign_tx (order (record o { eth_signature = none; signature = none }))
            ≡ ok eth)
  unfolding get_order
  get_order_signed sell buy ratio ratio_type amount recipient nonce valid_from valid_until s s' o
        h =
      after _ _ h (λ n s1 given h. after _ _ h (λ token_sell s2 sold h.
        after _ _ h (λ token_buy s3 bought h. after _ _ h (λ units s4 in_units h.
          after _ _ h (λ id s5 asked h. after _ _ h (λ e s6 by_eth h. after _ _ h (λ zk s7 by_zk h.
            let (units_ok, s4_same) = lift-eq-ok c _ in_units in
            let (eth_ok, s6_same) = lift-eq-ok c _ by_eth in
            let (zk_ok, s7_same) = lift-eq-ok c _ by_zk in
            let (same, s'_same) = pure-eq-ok c _ h in
            let signed : ℤ → Order = λ m. record {
              account_id = id;
              recipient = recipient_or_self c recipient;
              nonce = m;
              token_sell = token_sell;
              token_buy = token_buy;
              amount = from_decimal (plain token_sell) amount;
              ratio = units;
              valid_from = valid_from;
              valid_until = valid_until;
              signature = some zk;
              eth_signature_field = none;
              eth_signature = some e;
            } in
            let is_signed : signed n ≡ o = same in
            (
              token_sell,
              token_buy,
              units,
              zk,
              e,
              id,
              n,
              s1,
              s2,
              s3,
              nonce_or_asked-IsNonce c nonce given,
              sold,
              bought,
              unit_ratio-IsUnitRatio ratio_type token_sell token_buy ratio units units_ok,
              ap (get_account_id c) s4_same
                  ∙ asked
                  ∙ ap (λ (e : Env c). (ok id, e)) (s6_same ∙ s7_same ∙ s'_same),
              sym is_signed,
              ap (λ u. sign_tx c.zk_signer (order u)) (sym is_signed)
                  ∙ order_signature (record (signed n) { signature = none }) (some e) (some zk)
                  ∙ zk_ok,
              ap
                    (λ u.
                      c.eth_signer.sign_tx
                        (order (record u { eth_signature = none; signature = none })))
                    (sym is_signed)
                  ∙ eth_ok,
            ))))))))

  -- The order that `get_limit_order` returns has the argument `valid_from` as its nonce, the argument
  -- `valid_until` as the start of its validity, and the default as the end.
  pub get_limit_order-nonce :
      (sell buy : TokenLike) (ratio : Fraction) (ratio_type : RatioType) (recipient : Option Text)
      (valid_from valid_until : ℤ) (s s' : Env c) (o : Order)
      → get_limit_order c sell buy ratio ratio_type recipient valid_from valid_until s ≡ (ok o, s')
      → (o.nonce ≡ valid_from)
        × (o.valid_from ≡ valid_until)
        × (o.valid_until ≡ default_valid_until)
  unfolding get_limit_order
  get_limit_order-nonce sell buy ratio ratio_type recipient valid_from valid_until s s' o h =
      let (_, _, _, _, _, _, n, _, _, _, given, _, _, _, _, same, _, _) =
        get_order_signed sell buy ratio ratio_type (decimal_of_int (pos 0)) recipient
          (some valid_from) valid_until default_valid_until s s' o h in
      (
        ap (λ t. t.nonce) same ∙ named valid_from n s _ given,
        ap (λ t. t.valid_from) same,
        ap (λ t. t.valid_until) same,
      )
    where
      named : (given n : ℤ) (s s1 : Env c) → IsNonce c (some given) n s s1 → n ≡ given
      named given n s s1 (inl (same, _)) = cc same
      named given n s s1 (inr (same, _, _)) = cc same
