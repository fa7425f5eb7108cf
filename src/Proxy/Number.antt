-- ===== src/Proxy/Number.antt =====
-- Decimal numbers as Rust's standard library reads and prints them: `u16::from_str` and `{}`.
pub mod RoundTrip
use vaiexia_obfs.Common.{
  ℕ, zero, suc, ◌+◌, ◌-◌, ◌*◌, ◌/◌, ◌%◌, Bool, true, false, ◌&&◌, Option, none, some, List, [], ◌∷◌,
  ◌++◌, ltb, leb, ◌==◌, if◌then◌else◌,
}
use vaiexia_obfs.External.{Bytes}

abbrev is_digit : ℕ → Bool
is_digit c = leb 48 c && leb c 57

-- The digits after `acc`; `none` at the first byte that is none.
unfoldable pub digits_from : ℕ → Bytes → Option ℕ
digits_from acc [] = some acc
digits_from acc (c ∷ cs) =
    let rest = digits_from (acc * 10 + (c - 48)) cs in if is_digit c then rest else none

abbrev fits : Option ℕ → Option ℕ
fits none = none
fits (some n) = if ltb n 65536 then some n else none

-- One digit at least, and a value below 2 ^ 16.
unfoldable pub unsigned : Bytes → Option ℕ
unfolding digits_from
unsigned [] = none
unsigned (c ∷ cs) = fits (digits_from 0 (c ∷ cs))

-- `str::parse::<u16>`: a plus sign may stand in front.
unfoldable pub parse_u16 : Bytes → Option ℕ
unfolding unsigned
parse_u16 [] = none
parse_u16 (c ∷ cs) = if c == b'+' then unsigned cs else unsigned (c ∷ cs)

-- The last `fuel` digits of a number, with no zeros in front.
unfoldable pub print_from : ℕ → ℕ → Bytes
print_from zero n = []
print_from (suc fuel) n =
    let front = print_from fuel (n / 10) in
    if ltb n 10 then (48 + n) ∷ [] else front ++ (48 + n % 10) ∷ []

-- A `u16` has five digits at most.
unfoldable pub print_u16 : ℕ → Bytes
unfolding print_from
print_u16 n = print_from 5 n
