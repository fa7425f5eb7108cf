-- ===== src/Udp/Msg1.antt =====
-- src/udp/handshake.rs: the frame of the first handshake message, a 16-bit length, the Noise
-- message and an optional cookie of 16 bytes, and the body of the cookie reply.
pub mod RoundTrip
use vaiexia_obfs.Common.{
  ℕ, ◌+◌, ◌*◌, ◌/◌, ◌%◌, Option, none, some, List, [], ◌∷◌, ◌++◌, length, take, drop, ltb, leb,
  if◌then◌else◌,
}
use vaiexia_obfs.External.{Bytes}

-- `len as u16`, and `to_be_bytes` of it.
abbrev pub u16 : ℕ → ℕ
u16 n = n % 65536

abbrev pub to_be_bytes : ℕ → Bytes
to_be_bytes n = (n / 256) ∷ (n % 256) ∷ []

abbrev pub from_be_bytes : ℕ → ℕ → ℕ
from_be_bytes hi lo = hi * 256 + lo

unfoldable pub encode_cookie : Bytes → Bytes
encode_cookie cookie = cookie

unfoldable pub decode_cookie : Bytes → Option Bytes
decode_cookie body = if ltb (length body) 16 then none else some (take 16 body)

abbrev pub cookie_part : Option Bytes → Bytes
cookie_part none = []
cookie_part (some c) = c

unfoldable pub encode_msg1_framed : Bytes → Option Bytes → Bytes
encode_msg1_framed msg1 cookie = to_be_bytes (u16 (length msg1)) ++ (msg1 ++ cookie_part cookie)

-- The cookie that may stand behind the message: its first 16 bytes, if there are as many.
unfoldable pub trailing_cookie : Bytes → Option Bytes
trailing_cookie remaining = if leb 16 (length remaining) then some (take 16 remaining) else none

unfoldable pub decode_msg1_framed : Bytes → Option (Bytes × Option Bytes)
unfolding trailing_cookie
decode_msg1_framed [] = none
decode_msg1_framed (hi ∷ []) = none
decode_msg1_framed (hi ∷ lo ∷ rest) =
    let msg1_len = from_be_bytes hi lo in
    if ltb (length rest) msg1_len
    then none
    else some (take msg1_len rest, trailing_cookie (drop msg1_len rest))
