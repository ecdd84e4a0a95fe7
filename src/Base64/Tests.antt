-- ===== src/Base64/Tests.antt =====
-- The round trip at concrete bytes.
use download_wrapper.Base.{◌≡◌, [], arith, refl}
use download_wrapper.Text.{codes}
use download_wrapper.Base64.{base64_encode, base64_decode, base64url_encode, base64url_decode}
use download_wrapper.Base64.Decoded.{decode-encode}

decode-encode_example :
    (base64_decode (base64_encode (codes "Man.")) ≡ codes "Man.")
    × (base64url_decode (base64url_encode (codes "Man.")) ≡ codes "Man.")
decode-encode_example = decode-encode (codes "Man.") (omega arith)

-- Two letters of padding.
base64_encode_man : base64_encode (codes "Man.") ≡ codes "TWFuLg=="
unfolding base64_encode
base64_encode_man = refl

-- A character outside the alphabet leaves nothing.
base64_decode_illegal : base64_decode (codes "TW!u") ≡ []
unfolding base64_decode
base64_decode_illegal = refl
