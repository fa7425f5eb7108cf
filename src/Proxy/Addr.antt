-- ===== src/Proxy/Addr.antt =====
-- src/proxy/mod.rs: `parse_addr`.
pub mod RoundTrip
use vaiexia_obfs.Common.{
  ℕ, Bool, true, false, Option, none, some, List, [], ◌∷◌, ◌++◌, Result, ok, err, ok_or, and_then,
  ◌==◌, if◌then◌else◌,
}
use vaiexia_obfs.External.{Bytes}
use vaiexia_obfs.Stream.{io_err}
use vaiexia_obfs.Proxy.Number.{parse_u16}

abbrev with_first : ℕ → Option (Bytes × Bytes) → Option (Bytes × Bytes)
with_first c none = none
with_first c (some (before, after)) = some (c ∷ before, after)

-- The text before and behind the last byte that is `sep`: `rfind`, and the two slices at it.
unfoldable pub split_last : ℕ → Bytes → Option (Bytes × Bytes)
split_last sep [] = none
split_last sep (c ∷ cs) = elim (split_last sep cs) [
  | some parts ↦ with_first c (some parts)
  | none ↦ if c == sep then some ([], cs) else none
]

parse_parts : Bytes × Bytes → Result (Bytes × ℕ)
parse_parts (host, port) =
    and_then (ok_or (parse_u16 port) (io_err "invalid proxy port")) (λ p. ok (host, p))

unfoldable pub parse_addr : Bytes → Result (Bytes × ℕ)
unfolding parse_parts
parse_addr addr = and_then (ok_or (split_last b':' addr) (io_err "invalid proxy addr")) parse_parts
