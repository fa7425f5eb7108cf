-- ===== src/Proxy/Base64/RoundTrip.antt =====
-- What a proxy decodes from the credentials is what the client has encoded.
use mathlib.Core.Path.{subst}
use vaiexia_obfs.Common.{
  Bool-cases, inl, inr, ◌≤◌, ℕ, zero, suc, ◌+◌, ◌-◌, ◌*◌, ◌/◌, ◌%◌, ◌^◌, ◌<◌, ◌≡◌, refl, Bool, true,
  false, not, ◌&&◌, ◌++◌, [], ◌∷◌, arith, All, leb, ◌==◌, ==_iff, if◌then◌else◌,
}
use vaiexia_obfs.External.{Bytes}
use vaiexia_obfs.Proxy.Base64.{char_at, join, base64_encode}

-- The value of a character, by the ranges of RFC 4648.
abbrev pub value : ℕ → ℕ
value c =
    if leb b'a' c
    then c - b'a' + 26
    else if leb b'A' c
    then c - b'A'
    else if leb b'0' c
    then c - b'0' + 52
    else if c == b'+'
    then 62
    else 63

-- The decoder of RFC 4648, on texts whose length is a multiple of four.
abbrev pub decode_last : ℕ → ℕ → ℕ → ℕ → Bytes
decode_last a b c d =
    if c == b'='
    then (value a * 4 + value b / 16) ∷ []
    else if d == b'='
    then (value a * 4 + value b / 16) ∷ (value b % 16 * 16 + value c / 4) ∷ []
    else (value a * 4 + value b / 16)
      ∷ (value b % 16 * 16 + value c / 4)
      ∷ (value c % 4 * 64 + value d)
      ∷ []

abbrev pub base64_decode : Bytes → Bytes
base64_decode (a ∷ b ∷ c ∷ d ∷ rest) = decode_last a b c d ++ base64_decode rest
base64_decode _ = []

-- A test that every number from `start` on, `count` of them, passes.
passes : (ℕ → Bool) → ℕ → ℕ → Bool
passes test start zero = true
passes test start (suc count) = test start && passes test (suc start) count

passes-at :
    (test : ℕ → Bool) (start count k : ℕ)
    → start ≤ k
    → k < start + count
    → passes test start count ≡ true
    → test k ≡ true
unfolding passes
passes-at test start zero k from below all = absurd (omega arith)
passes-at test start (suc count) k from below all = elim (Bool-cases (start == k)) [
  | inl here ↦ subst (λ x. test x ≡ true) ((==_iff start k).0 here) (ground (arith, all))
  | inr later ↦
      passes-at test (suc start) count k (ground (arith, later)) (omega arith) (ground (arith, all))
]

abbrev is_reversed : ℕ → Bool
is_reversed x = value (char_at x) == x

abbrev not_padding : ℕ → Bool
not_padding x = not (char_at x == b'=')

value_table : passes is_reversed 0 64 ≡ true
unfolding passes char_at
value_table = refl

not_padding_table : passes not_padding 0 64 ≡ true
unfolding passes char_at
not_padding_table = refl

value-char_at : (x : ℕ) → x < 64 → value (char_at x) ≡ x
value-char_at x h =
    (==_iff (value (char_at x)) x).0 (passes-at is_reversed 0 64 x (omega arith) h value_table)

char_at-not_padding : (x : ℕ) → x < 64 → (char_at x == b'=') ≡ false
char_at-not_padding x h =
    ground (arith, passes-at not_padding 0 64 x (omega arith) h not_padding_table)

decode-three :
    (i j k l : ℕ)
    → i < 64
    → j < 64
    → k < 64
    → l < 64
    → decode_last (char_at i) (char_at j) (char_at k) (char_at l)
      ≡ (i * 4 + j / 16) ∷ (j % 16 * 16 + k / 4) ∷ (k % 4 * 64 + l) ∷ []
decode-three i j k l hi hj hk hl = rw (
  char_at-not_padding k hk,
  char_at-not_padding l hl,
  value-char_at i hi,
  value-char_at j hj,
  value-char_at k hk,
  value-char_at l hl,
)

decode-two :
    (i j k : ℕ)
    → i < 64
    → j < 64
    → k < 64
    → decode_last (char_at i) (char_at j) (char_at k) b'='
      ≡ (i * 4 + j / 16) ∷ (j % 16 * 16 + k / 4) ∷ []
decode-two i j k hi hj hk =
    rw (char_at-not_padding k hk, value-char_at i hi, value-char_at j hj, value-char_at k hk)

decode-one :
    (i j : ℕ)
    → i < 64
    → j < 64
    → decode_last (char_at i) (char_at j) b'=' b'=' ≡ (i * 4 + j / 16) ∷ []
decode-one i j hi hj = rw (value-char_at i hi, value-char_at j hj)

-- The decoder of RFC 4648 gives back every text of bytes.
pub base64_decode-base64_encode :
    (bytes : Bytes) → All (λ b. b < 256) bytes → base64_decode (base64_encode bytes) ≡ bytes
unfolding base64_encode
base64_decode-base64_encode [] h = refl
base64_decode-base64_encode (b0 ∷ []) h =
    let n = join b0 0 0 in
    rw (decode-one (n / 2 ^ 18) (n / 2 ^ 12 % 64) (omega arith) (omega arith)) (ground arith)
base64_decode-base64_encode (b0 ∷ b1 ∷ []) h =
    let n = join b0 b1 0 in
    rw
      (decode-two (n / 2 ^ 18) (n / 2 ^ 12 % 64) (n / 2 ^ 6 % 64) (omega arith) (omega arith)
        (omega arith))
      (ground arith)
base64_decode-base64_encode (b0 ∷ b1 ∷ b2 ∷ rest) h =
    let n = join b0 b1 b2 in
    rw
      (decode-three (n / 2 ^ 18) (n / 2 ^ 12 % 64) (n / 2 ^ 6 % 64) (n % 64) (omega arith)
        (omega arith) (omega arith) (omega arith))
      (ground (arith, base64_decode-base64_encode rest h.1.1.1))
