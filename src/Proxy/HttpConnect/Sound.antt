-- ===== src/Proxy/HttpConnect/Sound.antt =====
-- What a negotiation by HTTP CONNECT that has succeeded has said and heard.
use mathlib.Core.Path.{subst}
use vaiexia_obfs.Common.{
  ℕ, zero, suc, ◌+◌, ◌≤◌, ◌≡◌, refl, sym, ◌∙◌, false, Bool-cases, inl, inr, Option, [], ◌∷◌, ◌++◌,
  Result, ok, err, arith, length, ltb, append_assoc, append-nil_right, if◌then◌else◌,
}
use vaiexia_obfs.Common.Effects.{◌>>=◌, pure, raise, lift, bind-ok}
use vaiexia_obfs.External.{Bytes}
use vaiexia_obfs.Stream.{Stream, Io, read_exact, write_all}
use vaiexia_obfs.Stream.Spoke.{Spoke, Spoke-then, read_exact-Spoke, write_all-Spoke}
use vaiexia_obfs.Proxy.Socks5.{ProxyAuth}
use vaiexia_obfs.Proxy.HttpConnect.{
  max_response, end_of_header, ends_with, read_header, parse_response, http_request, too_large,
  tunnel_http_connect,
}
use vaiexia_obfs.Proxy.HttpConnect.Header.{FirstEnd}
use vaiexia_obfs.Proxy.HttpConnect.Status.{
  HasStatus200, accepted-HasStatus200, request_text, http_request-text,
}

-- The header that the loop has read behind `buf`.
record Headed (buf result : Bytes) (s t : Stream) : Type 0 where
  pub header : Bytes
  pub whole : result ≡ buf ++ header
  pub ended : FirstEnd buf header
  pub size : length result ≤ 8192
  pub spoke : Spoke s t header []

FirstEnd-cons :
    (buf todo : Bytes) (c : ℕ)
    → ends_with (buf ++ c ∷ []) end_of_header ≡ false
    → FirstEnd (buf ++ c ∷ []) todo
    → FirstEnd buf (c ∷ todo)
FirstEnd-cons buf [] c unended f = absurd f
FirstEnd-cons buf (d ∷ todo) c unended f = (unended, f)

abbrev next_byte : ℕ → Bytes → Bytes → Io Bytes
next_byte fuel buf byte =
    if ltb max_response (length (buf ++ byte))
    then raise too_large
    else if ends_with (buf ++ byte) end_of_header
    then pure (buf ++ byte)
    else read_header fuel (buf ++ byte)

next_byte-Headed :
    (fuel : ℕ) (buf : Bytes) (s : Stream) {result : Bytes} {t : Stream} (byte : Bytes) (u : Stream)
    → ((b : Bytes) (v : Stream) → read_header fuel b v ≡ (ok result, t) → Headed b result v t)
    → length byte ≡ 1
    → Spoke s u byte []
    → next_byte fuel buf byte u ≡ (ok result, t)
    → Headed buf result s t
next_byte-Headed fuel buf s [] u again one spoke more = absurd (omega (arith, one))
next_byte-Headed fuel buf s (c ∷ d ∷ cs) u again one spoke more = absurd (omega (arith, one))
next_byte-Headed fuel buf s {result} {t} (c ∷ []) u again one spoke more =
    elim (Bool-cases (ltb max_response (length (buf ++ c ∷ [])))) [
      | inl large ↦ cc (rw large at more)
      | inr small ↦ elim (Bool-cases (ends_with (buf ++ c ∷ []) end_of_header)) [
        | inl ended ↦
            let done : ◌≡◌ {A = Result Bytes × Stream} (ok (buf ++ c ∷ []), u) (ok result, t) =
              rw (small, ended) at more in
            let same : buf ++ c ∷ [] ≡ result = cc in
            let at_end : u ≡ t = cc in
            record {
              header = c ∷ [];
              whole = sym same;
              ended = ended;
              size = rw (← same) (ground (arith, small));
              spoke = subst (λ x. Spoke s x (c ∷ []) []) at_end spoke;
            }
        | inr unended ↦
            let k = again (buf ++ c ∷ []) u (rw (small, unended) at more) in
            record {
              header = c ∷ k.header;
              whole = k.whole ∙ append_assoc buf (c ∷ []) k.header;
              ended = FirstEnd-cons buf k.header c unended k.ended;
              size = k.size;
              spoke = Spoke-then spoke k.spoke;
            }
      ]
    ]

read_header-Headed :
    (fuel : ℕ) (buf : Bytes) (s : Stream) {result : Bytes} {t : Stream}
    → read_header fuel buf s ≡ (ok result, t)
    → Headed buf result s t
unfolding read_header
read_header-Headed zero buf s h = cc
read_header-Headed (suc fuel) buf s {result} {t} h =
    let (byte, u, got, more) = bind-ok (read_exact 1) (next_byte fuel buf) s h in
    let (one, spoke) = read_exact-Spoke 1 s got in
    next_byte-Headed fuel buf s byte u (λ b v. read_header-Headed fuel b v) one spoke more

-- The proxy has been asked for the host and the port, and has answered with a header of status 200.
pub record Granted (host : Bytes) (port : ℕ) (auth : Option ProxyAuth) (s t : Stream) : Type 0 where
  pub header : Bytes
  pub ended : FirstEnd [] header
  pub size : length header ≤ 8192
  pub status : HasStatus200 header
  pub spoke : Spoke s t header (request_text host port auth)

lift-ok :
    (r : Result (Unit {0})) (s : Stream) {t : Stream}
    → lift r s ≡ (ok tt, t)
    → (r ≡ ok tt) × (s ≡ t)
lift-ok (ok done) s h = (refl, cc)
lift-ok (err e) s h = cc

-- A negotiation that succeeds has sent the request for just the host and the port, and nothing else,
-- and has read a header that is a status of 200, up to its first blank line and no byte behind it.
pub tunnel_http_connect-Granted :
    (host : Bytes) (port : ℕ) (auth : Option ProxyAuth) (s t : Stream)
    → tunnel_http_connect host port auth s ≡ (ok tt, t)
    → Granted host port auth s t
unfolding tunnel_http_connect
tunnel_http_connect-Granted host port auth s t h =
    let parsing = λ (buf : Bytes). lift {S = Stream} (parse_response buf) in
    let (x, u, wrote, more) =
      bind-ok (write_all (http_request host port auth))
        (λ _. read_header (max_response + 1) [] >>= parsing) s h in
    let (buf, v, got, last) = bind-ok (read_header (max_response + 1) []) parsing u more in
    let k = read_header-Headed (max_response + 1) [] u got in
    let (status, same) = lift-ok (parse_response buf) v last in
    record {
      header = k.header;
      ended = k.ended;
      size = rw (← k.whole) k.size;
      status = accepted-HasStatus200 k.header (rw (← k.whole) status);
      spoke =
          subst (λ y. Spoke s y k.header (request_text host port auth)) same
            (subst (λ l. Spoke s v k.header l)
              (append-nil_right (http_request host port auth) ∙ http_request-text host port auth)
              (Spoke-then (write_all-Spoke (http_request host port auth) s wrote) k.spoke));
    }
