-- ===== src/Proxy/Socks5/Wire.antt =====
-- What the peers of the SOCKS5 dialogue read: the server's reading of the client's requests, and
-- the shape of the server's replies, as RFC 1928 and RFC 1929 have them.
use vaiexia_obfs.Common.{ℕ, ◌≡◌, [], ◌∷◌, ◌++◌, length}
use vaiexia_obfs.External.{Bytes}

-- The address that a server has bound, in the three forms of a reply: its type and its bytes.
pub data Bound : Type 0 where
  ipv4 : ℕ → ℕ → ℕ → ℕ → Bound
  domain : Bytes → Bound
  ipv6 : (address : Bytes) → length address ≡ 16 → Bound

abbrev pub bound_type : Bound → ℕ
bound_type (ipv4 a b c d) = 0x01
bound_type (domain name) = 0x03
bound_type (ipv6 address h) = 0x04

abbrev pub bound_bytes : Bound → ℕ → ℕ → Bytes
bound_bytes (ipv4 a b c d) hi lo = a ∷ b ∷ c ∷ d ∷ hi ∷ lo ∷ []
bound_bytes (domain name) hi lo = length name ∷ (name ++ hi ∷ lo ∷ [])
bound_bytes (ipv6 address h) hi lo = address ++ hi ∷ lo ∷ []
