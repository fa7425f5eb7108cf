-- ===== src/Udp/Msg1/RoundTrip.antt =====
-- The frame of message 1 gives back the message and the cookie.
use vaiexia_obfs.Common.{
  ℕ, ◌/◌, ◌%◌, ◌<◌, ◌≡◌, refl, Option, none, some, ◌++◌, arith, length, length-append,
  take-length_append, drop-length_append, take-length, ltb, false,
}
use vaiexia_obfs.External.{Bytes}
use vaiexia_obfs.Udp.Msg1.{
  u16, cookie_part, from_be_bytes, encode_cookie, decode_cookie, encode_msg1_framed,
  trailing_cookie, decode_msg1_framed,
}

-- A cookie has 16 bytes, where there is one.
abbrev pub CookieFits : Option Bytes → Type 0
CookieFits none = Unit {0}
CookieFits (some c) = length c ≡ 16

be_bytes_exact : (n : ℕ) → n < 65536 → from_be_bytes (u16 n / 256) (u16 n % 256) ≡ n
be_bytes_exact n h = omega arith

no_underrun : (m rest : Bytes) → ltb (length (m ++ rest)) (length m) ≡ false
no_underrun m rest = ground (arith, length-append m rest)

trailing_cookie-cookie_part :
    (c : Option Bytes) → CookieFits c → trailing_cookie (cookie_part c) ≡ c
unfolding trailing_cookie
trailing_cookie-cookie_part none h = refl
trailing_cookie-cookie_part (some c) h = rw (h, ← h, take-length c)

-- The responder gets back the message and the cookie that the client has framed, for every message
-- that a 16-bit length can count and every cookie of 16 bytes, or none.
pub decode_msg1_framed-encode_msg1_framed :
    (m : Bytes) (c : Option Bytes)
    → length m < 65536
    → CookieFits c
    → decode_msg1_framed (encode_msg1_framed m c) ≡ some (m, c)
unfolding decode_msg1_framed encode_msg1_framed
decode_msg1_framed-encode_msg1_framed m c fits cookie = rw (
  be_bytes_exact (length m) fits,
  no_underrun m (cookie_part c),
  take-length_append m (cookie_part c),
  drop-length_append m (cookie_part c),
  trailing_cookie-cookie_part c cookie,
)

pub decode_cookie-encode_cookie :
    (c : Bytes) → length c ≡ 16 → decode_cookie (encode_cookie c) ≡ some c
unfolding decode_cookie encode_cookie
decode_cookie-encode_cookie c h = rw (h, ← h, take-length c)
