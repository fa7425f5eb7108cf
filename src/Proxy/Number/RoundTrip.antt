-- ===== src/Proxy/Number/RoundTrip.antt =====
-- Printing a number and parsing it gives it back.
use vaiexia_obfs.Common.{
  ℕ, zero, suc, ◌+◌, ◌-◌, ◌*◌, ◌/◌, ◌%◌, ◌≤◌, ◌<◌, ◌≡◌, ◌∙◌, some, [], ◌∷◌, ◌++◌, arith, ltb,
  lt→ltb, ltb→lt, ap, Bool-cases, inl, inr,
}
use vaiexia_obfs.External.{Bytes}
use vaiexia_obfs.Proxy.Number.{digits_from, unsigned, parse_u16, print_from, print_u16}

one_digit : (n : ℕ) → n < 10 → digits_from 0 ((48 + n) ∷ []) ≡ some n
unfolding digits_from
one_digit n h = ground arith

digits_from-append :
    (acc : ℕ) (xs : Bytes) (d n : ℕ)
    → d < 10
    → digits_from acc xs ≡ some n
    → digits_from acc (xs ++ (48 + d) ∷ []) ≡ some (n * 10 + d)
unfolding digits_from
digits_from-append acc [] d n h e = ground arith
digits_from-append acc (c ∷ cs) d n h e =
    ground (arith, digits_from-append (acc * 10 + (c - 48)) cs d n h)

abbrev power_of_ten : ℕ → ℕ
power_of_ten zero = 1
power_of_ten (suc k) = 10 * power_of_ten k

digits_from-print_from :
    (fuel n : ℕ) → n < power_of_ten (suc fuel) → digits_from 0 (print_from (suc fuel) n) ≡ some n
unfolding print_from
digits_from-print_from zero n h = rw (lt→ltb n 10 (omega arith)) (one_digit n (omega arith))
digits_from-print_from (suc fuel) n h = elim (Bool-cases (ltb n 10)) [
  | inl small ↦ rw small (one_digit n (ltb→lt n 10 small))
  | inr large ↦ rw large (
      digits_from-append 0 (print_from (suc fuel) (n / 10)) (n % 10) (n / 10) (omega arith)
        (digits_from-print_from fuel (n / 10) (omega arith))
      ∙ ap some (omega arith))
]

-- The first byte of a printed number is a digit.
print_from-head :
    (fuel n : ℕ) → (c : ℕ) × (cs : Bytes) × (print_from (suc fuel) n ≡ c ∷ cs) × (48 ≤ c)
unfolding print_from
print_from-head zero n = elim (Bool-cases (ltb n 10)) [
  | inl small ↦ (48 + n, [], rw small, omega arith)
  | inr large ↦ (48 + n % 10, [], rw large, omega arith)
]
print_from-head (suc fuel) n = elim (Bool-cases (ltb n 10)) [
  | inl small ↦ (48 + n, [], rw small, omega arith)
  | inr large ↦
      let (c, cs, e, digit) = print_from-head fuel (n / 10) in
      (c, cs ++ (48 + n % 10) ∷ [], rw (large, e), digit)
]

parse-digits :
    (bytes : Bytes) (c : ℕ) (cs : Bytes) (n : ℕ)
    → bytes ≡ c ∷ cs
    → 48 ≤ c
    → n < 65536
    → digits_from 0 bytes ≡ some n
    → parse_u16 bytes ≡ some n
unfolding parse_u16 unsigned
parse-digits bytes c cs n e digit h d = ground (arith, e, d)

-- Every port is parsed as it has been printed.
pub parse_u16-print_u16 : (n : ℕ) → n < 65536 → parse_u16 (print_u16 n) ≡ some n
unfolding print_u16
parse_u16-print_u16 n h =
    let (c, cs, e, digit) = print_from-head 4 n in
    parse-digits (print_from 5 n) c cs n e digit h (digits_from-print_from 4 n (omega arith))
