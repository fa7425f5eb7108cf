-- ===== src/Udp/WireDgram/RoundTrip.antt =====
-- Decoding the inner datagram framing undoes encoding, and accepts nothing else.
use vaiexia_obfs.Common.{ℕ, ◌≡◌, refl, ◌↔◌, some, [], ◌∷◌, arith}
use vaiexia_obfs.External.{Bytes}
use vaiexia_obfs.Udp.WireDgram.{DgramType, hs1, from_byte, as_byte, encode_inner, decode_inner}

pub decode_inner-encode_inner :
    (ty : DgramType) (body : Bytes) → decode_inner (encode_inner ty body) ≡ some (ty, body)
unfolding encode_inner decode_inner
decode_inner-encode_inner hs1 body = refl
decode_inner-encode_inner _ body = refl

from_byte-inv : (b : ℕ) (ty : DgramType) → from_byte b ≡ some ty → b ≡ as_byte ty
unfolding from_byte as_byte
from_byte-inv b ty h = ground arith

encode_inner-decode_inner :
    (d : Bytes) (ty : DgramType) (body : Bytes)
    → decode_inner d ≡ some (ty, body)
    → d ≡ encode_inner ty body
unfolding decode_inner encode_inner
encode_inner-decode_inner [] ty body h = cc
encode_inner-decode_inner (b ∷ rest) ty body h = ground (arith, from_byte-inv b ty)

-- The decoder accepts exactly the encoder's outputs: `d` decodes to a type and a body if and only
-- if it is their encoding. So every datagram with an unknown type byte, and the empty one, is
-- refused, and no two datagrams decode alike.
pub decode_inner_exact :
    (d : Bytes) (ty : DgramType) (body : Bytes)
    → (decode_inner d ≡ some (ty, body)) ↔ (d ≡ encode_inner ty body)
decode_inner_exact d ty body =
    (encode_inner-decode_inner d ty body, λ e. rw e (decode_inner-encode_inner ty body))
