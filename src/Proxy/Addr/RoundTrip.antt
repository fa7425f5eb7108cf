-- ===== src/Proxy/Addr/RoundTrip.antt =====
-- An address is parsed as it is written, also where the host has colons of its own.
use vaiexia_obfs.Common.{
  ℕ, zero, suc, ◌+◌, ◌%◌, ◌/◌, ◌<◌, ◌≡◌, refl, false, none, some, [], ◌∷◌, ◌++◌, ok, arith, All,
  ◌==◌, ltb, ltb→lt, Bool-cases, inl, inr,
}
use vaiexia_obfs.External.{Bytes}
use vaiexia_obfs.Proxy.Number.{print_u16, print_from}
use vaiexia_obfs.Proxy.Number.RoundTrip.{parse_u16-print_u16}
use vaiexia_obfs.Proxy.Addr.{split_last, parse_addr}

abbrev NoColon : Bytes → Type 0
NoColon = All (λ c. (c == b':') ≡ false)

NoColon-append : (xs ys : Bytes) → NoColon xs → NoColon ys → NoColon (xs ++ ys)
NoColon-append [] ys h k = k
NoColon-append (x ∷ xs) ys h k = (h.0, NoColon-append xs ys h.1 k)

no_colon_digit : (d : ℕ) → d < 10 → (48 + d == b':') ≡ false
no_colon_digit d h = ground arith

print_from-NoColon : (fuel n : ℕ) → NoColon (print_from fuel n)
unfolding print_from
print_from-NoColon zero n = tt
print_from-NoColon (suc fuel) n = elim (Bool-cases (ltb n 10)) [
  | inl small ↦ rw small (no_colon_digit n (ltb→lt n 10 small), tt)
  | inr large ↦ rw large (
      NoColon-append (print_from fuel (n / 10)) ((48 + n % 10) ∷ [])
        (print_from-NoColon fuel (n / 10)) (no_colon_digit (n % 10) (omega arith), tt))
]

split_last-none : (xs : Bytes) → NoColon xs → split_last b':' xs ≡ none
unfolding split_last
split_last-none [] h = refl
split_last-none (x ∷ xs) h = rw (split_last-none xs h.1, split_last) (rw h.0)

split_last-append :
    (host port : Bytes) → NoColon port → split_last b':' (host ++ b':' ∷ port) ≡ some (host, port)
unfolding split_last
split_last-append [] port h = rw (split_last-none port h, split_last)
split_last-append (c ∷ host) port h = rw (split_last-append host port h, split_last)

-- "host:port" is parsed to the host and the port, for every host, an IPv6 address with colons
-- included, and every port of 16 bits.
pub parse_addr-print :
    (host : Bytes) (port : ℕ)
    → port < 65536
    → parse_addr (host ++ b':' ∷ print_u16 port) ≡ ok (host, port)
unfolding parse_addr print_u16
parse_addr-print host port h =
    rw (split_last-append host (print_from 5 port) (print_from-NoColon 5 port))
      (rw (parse_u16-print_u16 port h))
