-- ===== src/Tests/Responses.antt =====
-- The aliases of some fields.
use zksync_python.Prelude.{◌≡◌, refl}
use zksync_python.Python.Text.{text}
use zksync_python.Responses.{to_camel, split_underscore}

camel_names :
    (to_camel (text "expected_accept_block") ≡ text "expectedAcceptBlock")
    × (to_camel (text "pub_key_hash") ≡ text "pubKeyHash")
    × (to_camel (text "total_fee") ≡ text "totalFee")
    × (to_camel (text "nonce") ≡ text "nonce")
unfolding to_camel split_underscore
camel_names = (refl, refl, refl, refl)
