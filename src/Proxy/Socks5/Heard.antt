-- ===== src/Proxy/Socks5/Heard.antt =====
-- What a SOCKS5 reply has been read to: its head, and the address that the server has bound.
use mathlib.Core.Path.{subst}
use vaiexia_obfs.Common.{
  ℕ, zero, suc, ◌+◌, ◌≡◌, refl, sym, ap, Bool-cases, inl, inr, [], ◌∷◌, ◌++◌, ok, arith, length,
  ◌==◌, ==_iff, get_or,
}
use vaiexia_obfs.Common.Effects.{◌>>◌, pure, bind-ok}
use vaiexia_obfs.External.{Bytes}
use vaiexia_obfs.Stream.{Io, Stream, read_exact}
use vaiexia_obfs.Stream.Spoke.{Spoke, Spoke-then, read_exact-Spoke}
use vaiexia_obfs.Proxy.Socks5.{consume_bnd_addr, consume_domain}
use vaiexia_obfs.Proxy.Socks5.Wire.{Bound, ipv4, domain, ipv6, bound_type, bound_bytes}

-- A list of at least two elements, cut before its last two.
record EndsInTwo (n : ℕ) (xs : Bytes) : Type 0 where
  pub front : Bytes
  pub hi : ℕ
  pub lo : ℕ
  pub whole : xs ≡ front ++ hi ∷ lo ∷ []
  pub size : length front ≡ n

ends_in_two : (n : ℕ) (xs : Bytes) → length xs ≡ n + 2 → EndsInTwo n xs
ends_in_two zero (hi ∷ lo ∷ []) h = record {
  front = [];
  hi = hi;
  lo = lo;
  whole = refl;
  size = refl;
}
ends_in_two zero [] h = absurd (omega (arith, h))
ends_in_two zero (a ∷ []) h = absurd (omega (arith, h))
ends_in_two zero (a ∷ b ∷ c ∷ xs) h = absurd (omega (arith, h))
ends_in_two (suc n) [] h = absurd (omega (arith, h))
ends_in_two (suc n) (x ∷ xs) h =
    let e = ends_in_two n xs (omega (arith, h)) in
    record {
      front = x ∷ e.front;
      hi = e.hi;
      lo = e.lo;
      whole = ap (λ l. x ∷ l) e.whole;
      size = omega (arith, e.size);
    }

-- The reply's address has been read to its end.
pub record HeardBound (atyp : ℕ) (s t : Stream) : Type 0 where
  pub bound : Bound
  pub hi : ℕ
  pub lo : ℕ
  pub kind : bound_type bound ≡ atyp
  pub spoke : Spoke s t (bound_bytes bound hi lo) []

ipv4_of : (xs : Bytes) (s t : Stream) → length xs ≡ 6 → Spoke s t xs [] → HeardBound 0x01 s t
ipv4_of (a ∷ b ∷ c ∷ d ∷ hi ∷ lo ∷ []) s t h spoke = record {
  bound = ipv4 a b c d;
  hi = hi;
  lo = lo;
  kind = refl;
  spoke = spoke;
}
ipv4_of [] s t h spoke = absurd (omega (arith, h))
ipv4_of (a ∷ []) s t h spoke = absurd (omega (arith, h))
ipv4_of (a ∷ b ∷ []) s t h spoke = absurd (omega (arith, h))
ipv4_of (a ∷ b ∷ c ∷ []) s t h spoke = absurd (omega (arith, h))
ipv4_of (a ∷ b ∷ c ∷ d ∷ []) s t h spoke = absurd (omega (arith, h))
ipv4_of (a ∷ b ∷ c ∷ d ∷ e ∷ []) s t h spoke = absurd (omega (arith, h))
ipv4_of (a ∷ b ∷ c ∷ d ∷ e ∷ f ∷ g ∷ xs) s t h spoke = absurd (omega (arith, h))

ipv6_of : (xs : Bytes) (s t : Stream) → length xs ≡ 18 → Spoke s t xs [] → HeardBound 0x04 s t
ipv6_of xs s t h spoke =
    let e = ends_in_two 16 xs h in
    record {
      bound = ipv6 e.front e.size;
      hi = e.hi;
      lo = e.lo;
      kind = refl;
      spoke = rw (← e.whole) spoke;
    }

one_of : (xs : Bytes) → length xs ≡ 1 → xs ≡ get_or xs 0 0 ∷ []
one_of (a ∷ []) h = refl
one_of [] h = absurd (omega (arith, h))
one_of (a ∷ b ∷ xs) h = absurd (omega (arith, h))

pub two_of : (xs : Bytes) → length xs ≡ 2 → xs ≡ get_or xs 0 0 ∷ get_or xs 1 0 ∷ []
two_of (a ∷ b ∷ []) h = refl
two_of [] h = absurd (omega (arith, h))
two_of (a ∷ []) h = absurd (omega (arith, h))
two_of (a ∷ b ∷ c ∷ xs) h = absurd (omega (arith, h))

pub four_of :
    (xs : Bytes)
    → length xs ≡ 4
    → xs ≡ get_or xs 0 0 ∷ get_or xs 1 0 ∷ get_or xs 2 0 ∷ get_or xs 3 0 ∷ []
four_of (a ∷ b ∷ c ∷ d ∷ []) h = refl
four_of [] h = absurd (omega (arith, h))
four_of (a ∷ []) h = absurd (omega (arith, h))
four_of (a ∷ b ∷ []) h = absurd (omega (arith, h))
four_of (a ∷ b ∷ c ∷ []) h = absurd (omega (arith, h))
four_of (a ∷ b ∷ c ∷ d ∷ e ∷ xs) h = absurd (omega (arith, h))

-- A read whose result is not used.
abbrev skip : ℕ → Io (Unit {0})
skip n = read_exact n >> pure tt

skipped :
    (n : ℕ) (s : Stream) {t : Stream}
    → skip n s ≡ (ok tt, t)
    → (xs : Bytes) × (length xs ≡ n) × Spoke s t xs []
skipped n s {t} h =
    let (xs, u, got, done) = bind-ok (read_exact n) (λ _. pure tt) s h in
    let same : u ≡ t = cc in
    let (size, spoke) = read_exact-Spoke n s got in
    (xs, size, subst (λ x. Spoke s x xs []) same spoke)

domain_of :
    (len xs : Bytes) (s u t : Stream)
    → length len ≡ 1
    → length xs ≡ get_or len 0 0 + 2
    → Spoke s u len []
    → Spoke u t xs []
    → HeardBound 0x03 s t
domain_of (n ∷ []) xs s u t one size first second =
    let e = ends_in_two n xs size in
    let same : (n ∷ []) ++ xs ≡ length e.front ∷ (e.front ++ e.hi ∷ e.lo ∷ []) =
      rw (e.size) (ap (λ l. n ∷ l) e.whole) in
    record {
      bound = domain e.front;
      hi = e.hi;
      lo = e.lo;
      kind = refl;
      spoke = subst (λ l. Spoke s t l []) same (Spoke-then first second);
    }
domain_of [] xs s u t one size first second = absurd (omega (arith, one))
domain_of (a ∷ b ∷ rest) xs s u t one size first second = absurd (omega (arith, one))

consume_domain-HeardBound : (s t : Stream) → consume_domain s ≡ (ok tt, t) → HeardBound 0x03 s t
unfolding consume_domain
consume_domain-HeardBound s t h =
    let (len_buf, u, got, more) =
      bind-ok (read_exact 1) (λ len_buf. skip (get_or len_buf 0 0 + 2)) s h in
    let (one, first) = read_exact-Spoke 1 s got in
    let (xs, size, second) = skipped (get_or len_buf 0 0 + 2) u more in
    domain_of len_buf xs s u t one size first second

pub consume_bnd_addr-HeardBound :
    (atyp : ℕ) (s t : Stream) → consume_bnd_addr atyp s ≡ (ok tt, t) → HeardBound atyp s t
unfolding consume_bnd_addr
consume_bnd_addr-HeardBound atyp s t h = elim (Bool-cases (atyp == 0x01)) [
  | inl first ↦
      let (xs, size, spoke) = skipped 6 s (rw first at h) in
      subst (λ a. HeardBound a s t) (sym ((==_iff atyp 0x01).0 first)) (ipv4_of xs s t size spoke)
  | inr not_first ↦ elim (Bool-cases (atyp == 0x03)) [
    | inl third ↦
        subst (λ a. HeardBound a s t) (sym ((==_iff atyp 0x03).0 third))
          (consume_domain-HeardBound s t (rw (not_first, third) at h))
    | inr not_third ↦ elim (Bool-cases (atyp == 0x04)) [
      | inl fourth ↦
          let (xs, size, spoke) = skipped 18 s (rw (not_first, not_third, fourth) at h) in
          subst (λ a. HeardBound a s t) (sym ((==_iff atyp 0x04).0 fourth))
            (ipv6_of xs s t size spoke)
      | inr unknown ↦ absurd (cc (rw (not_first, not_third, unknown) at h))
    ]
  ]
]
