-- ===== src/Proxy/Socks5/Requested.antt =====
-- The request of a SOCKS5 negotiation that has succeeded, and its answer.
use mathlib.Core.Path.{subst}
use vaiexia_obfs.Common.{
  ℕ, ◌≤◌, ◌≡◌, [], ◌∷◌, ◌++◌, ok, arith, length, leb, ◌==◌, ==_iff, get_or, append-nil_right,
}
use vaiexia_obfs.Common.Effects.{◌>>=◌, ◌>>◌, guard, bind-ok}
use vaiexia_obfs.External.{Bytes}
use vaiexia_obfs.Stream.{Io, Stream, read_exact, write_all, io_err}
use vaiexia_obfs.Stream.Spoke.{Spoke, Spoke-then, read_exact-Spoke, guarded, written}
use vaiexia_obfs.Proxy.Socks5.{connect_request, consume_bnd_addr, connect, failure_text}
use vaiexia_obfs.Proxy.Socks5.Wire.{Bound, bound_type, bound_bytes}
use vaiexia_obfs.Proxy.Socks5.Heard.{HeardBound, four_of, consume_bnd_addr-HeardBound}

-- The request has been made and answered by a success.
pub record Connects (host : Bytes) (port : ℕ) (s t : Stream) : Type 0 where
  pub bound : Bound
  pub rsv : ℕ
  pub hi : ℕ
  pub lo : ℕ
  pub short : length host ≤ 255
  pub spoke :
      Spoke s t
        (0x05 ∷ 0x00 ∷ rsv ∷ bound_type bound ∷ bound_bytes bound hi lo)
        (connect_request host port)

answered : Bytes → Io (Unit {0})
answered hdr =
    guard (get_or hdr 0 0 == 0x05) (io_err "SOCKS5: invalid reply version")
    >> (guard (get_or hdr 1 0 == 0x00) (io_err (failure_text (get_or hdr 1 0)))
        >> consume_bnd_addr (get_or hdr 3 0))

-- The head of the reply, whose second byte is zero, and the address behind it.
answered-HeardBound :
    (hdr : Bytes) (s : Stream) {t : Stream}
    → length hdr ≡ 4
    → answered hdr s ≡ (ok tt, t)
    → (h : HeardBound (get_or hdr 3 0) s t) × (hdr
        ≡ 0x05 ∷ 0x00 ∷ get_or hdr 2 0 ∷ bound_type h.bound ∷ [])
unfolding answered
answered-HeardBound hdr s {t} four h =
    let (version, more) =
      guarded (get_or hdr 0 0 == 0x05) (io_err "SOCKS5: invalid reply version")
        (guard (get_or hdr 1 0 == 0x00) (io_err (failure_text (get_or hdr 1 0)))
          >> consume_bnd_addr (get_or hdr 3 0))
        s h in
    let (zero_code, rest) =
      guarded (get_or hdr 1 0 == 0x00) (io_err (failure_text (get_or hdr 1 0)))
        (consume_bnd_addr (get_or hdr 3 0)) s more in
    let b = consume_bnd_addr-HeardBound (get_or hdr 3 0) s t rest in
    let v = (==_iff (get_or hdr 0 0) 0x05).0 version in
    let c = (==_iff (get_or hdr 1 0) 0x00).0 zero_code in
    let k = b.kind in let whole = four_of hdr four in (b, cc)

pub connect-Connects :
    (host : Bytes) (port : ℕ) (s : Stream) {t : Stream}
    → connect host port s ≡ (ok tt, t)
    → Connects host port s t
unfolding connect answered
connect-Connects host port s {t} h =
    let (fits, asked) =
      guarded (leb (length host) 255) (io_err "SOCKS5: target hostname too long")
        (write_all (connect_request host port) >> (read_exact 4 >>= answered)) s h in
    let (u, wrote, reply) =
      written (connect_request host port) (read_exact 4 >>= answered) s asked in
    let (hdr, v, got, more) = bind-ok (read_exact 4) answered u reply in
    let (four, read) = read_exact-Spoke 4 u got in
    let (b, head) = answered-HeardBound hdr v four more in
    record {
      bound = b.bound;
      rsv = get_or hdr 2 0;
      hi = b.hi;
      lo = b.lo;
      short = ground (arith, fits);
      spoke =
          subst (λ l. Spoke s t (l ++ bound_bytes b.bound b.hi b.lo) (connect_request host port))
            head
            (subst (λ l. Spoke s t (hdr ++ bound_bytes b.bound b.hi b.lo) l)
              (append-nil_right (connect_request host port))
              (Spoke-then wrote (Spoke-then read b.spoke)));
    }
