-- ===== src/Udp/WireDgram.antt =====
-- src/udp/wire_dgram.rs: the inner datagram framing, a type byte and a body.
pub mod RoundTrip
use vaiexia_obfs.Common.{ℕ, Bool, Option, none, some, List, [], ◌∷◌, ◌++◌, ◌==◌, if◌then◌else◌}
use vaiexia_obfs.External.{Bytes}

pub data DgramType : Type 0 where
  hs1 hs2 hs3 cookie data_record : DgramType

unfoldable pub from_byte : ℕ → Option DgramType
from_byte b =
    if b == 0x01
    then some hs1
    else if b == 0x02
    then some hs2
    else if b == 0x03
    then some hs3
    else if b == 0x04
    then some cookie
    else if b == 0x05
    then some data_record
    else none

unfoldable pub as_byte : DgramType → ℕ
as_byte hs1 = 0x01
as_byte hs2 = 0x02
as_byte hs3 = 0x03
as_byte cookie = 0x04
as_byte data_record = 0x05

unfoldable pub encode_inner : DgramType → Bytes → Bytes
unfolding as_byte
encode_inner ty body = as_byte ty ∷ [] ++ body

abbrev with_body : Option DgramType → Bytes → Option (DgramType × Bytes)
with_body none body = none
with_body (some ty) body = some (ty, body)

unfoldable pub decode_inner : Bytes → Option (DgramType × Bytes)
unfolding from_byte
decode_inner [] = none
decode_inner (b ∷ body) = with_body (from_byte b) body
