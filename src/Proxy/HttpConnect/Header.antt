-- ===== src/Proxy/HttpConnect/Header.antt =====
-- The loop that reads the header of the response.
use vaiexia_obfs.Common.{
  ℕ, zero, suc, ◌+◌, ◌≤◌, ◌≡◌, ◌≢◌, refl, ◌∙◌, ap, true, false, Option, [], ◌∷◌, ◌++◌, Result, ok,
  err, out_of_fuel, arith, length, length-append, append_assoc, ltb,
}
use vaiexia_obfs.External.{Bytes}
use vaiexia_obfs.Stream.{Stream}
use vaiexia_obfs.Stream.Reads.{
  byte, ended, read_exact_one, end_error-ne_fuel, read_exact-append, write_all-room,
}
use vaiexia_obfs.Proxy.Socks5.{ProxyAuth}
use vaiexia_obfs.Proxy.Socks5.Success.{moved}
use vaiexia_obfs.Proxy.HttpConnect.{
  max_response, end_of_header, ends_with, read_header, tunnel_http_connect,
}
use vaiexia_obfs.Proxy.HttpConnect.Status.{
  IsGrant, IsGrant-accepted, request_text, http_request-text,
}

-- The blank line stands for the first time at the end of the bytes behind `buf`.
abbrev pub FirstEnd : Bytes → Bytes → Type 0
FirstEnd buf [] = ⊥
FirstEnd buf (c ∷ []) = ends_with (buf ++ c ∷ []) end_of_header ≡ true
FirstEnd buf (c ∷ d ∷ cs) =
    (ends_with (buf ++ c ∷ []) end_of_header ≡ false) × FirstEnd (buf ++ c ∷ []) (d ∷ cs)

grown : (buf : Bytes) (c : ℕ) → length (buf ++ c ∷ []) ≡ suc (length buf)
grown buf c = omega (arith, length-append buf (c ∷ []))

read_header-FirstEnd :
    (fuel : ℕ) (buf todo rest : Bytes) (s : Stream)
    → FirstEnd buf todo
    → length buf + length todo ≤ 8192
    → length todo ≤ fuel
    → s.incoming ≡ todo ++ rest
    → read_header fuel buf s ≡ (ok (buf ++ todo), record s { incoming = rest })
unfolding read_header
read_header-FirstEnd fuel buf [] rest s f size enough e = absurd f
read_header-FirstEnd zero buf (c ∷ todo) rest s f size enough e = absurd (omega arith)
read_header-FirstEnd (suc fuel) buf (c ∷ []) rest s f size enough e =
    rw (read_exact-append s (c ∷ []) rest e, small, f)
  where
    small : ltb 8192 (length (buf ++ c ∷ [])) ≡ false
    small = ground (arith, grown buf c)
read_header-FirstEnd (suc fuel) buf (c ∷ d ∷ todo) rest s f size enough e =
    rw (read_exact-append s (c ∷ []) (d ∷ (todo ++ rest)) e, small, f.0)
      (read_header-FirstEnd fuel (buf ++ c ∷ []) (d ∷ todo) rest
          (record s { incoming = d ∷ (todo ++ rest) }) f.1 (omega (arith, grown buf c))
          (omega arith) refl
        ∙ ap (λ x. found x rest s) (append_assoc buf (c ∷ []) (d ∷ todo)))
  where
    small : ltb 8192 (length (buf ++ c ∷ [])) ≡ false
    small = ground (arith, grown buf c)

    found : Bytes → Bytes → Stream → Result Bytes × Stream
    found x r t = (ok x, record t { incoming = r })

-- The negotiation succeeds against every proxy whose response has a header of at most 8192 bytes
-- of UTF-8 with a status line "VERSION 200 REASON": the proxy is sent the request, and the stream is left right behind the
-- blank line, whatever follows, with no byte of it read.
pub tunnel_http_connect_succeeds :
    (host : Bytes) (port : ℕ) (auth : Option ProxyAuth) (header rest : Bytes) (s : Stream)
    → FirstEnd [] header
    → length header ≤ 8192
    → IsGrant header
    → length (request_text host port auth) ≤ s.room
    → s.incoming ≡ header ++ rest
    → tunnel_http_connect host port auth s ≡ (ok tt, moved (request_text host port auth) rest s)
unfolding tunnel_http_connect
tunnel_http_connect_succeeds host port auth header rest s f size good room e = rw (
  http_request-text host port auth,
  write_all-room s (request_text host port auth) room,
  read_header-FirstEnd 8193 [] header rest (moved (request_text host port auth) s.incoming s) f
      (omega arith) (omega arith) e,
  IsGrant-accepted header good,
)

read_header_fuel :
    (fuel : ℕ) (buf : Bytes) (s : Stream)
    → length buf ≤ 8192
    → 8193 ≤ length buf + fuel
    → (read_header fuel buf s).0 ≢ err out_of_fuel
unfolding read_header
read_header_fuel zero buf s size enough h = absurd (omega arith)
read_header_fuel (suc fuel) buf s size enough h = elim (read_exact_one s) [
  | ended t e ↦ end_error-ne_fuel s.ending (ground (arith, rw e at h))
  | byte c t e ↦
      let h' = rw e at h in ground (arith, grown buf c, read_header_fuel fuel (buf ++ c ∷ []) t)
]

-- The loop over the response ends by a result of the code's own for every stream: it never needs
-- more rounds than the maximum and one.
pub read_header_total : (s : Stream) → (read_header (max_response + 1) [] s).0 ≢ err out_of_fuel
read_header_total s = read_header_fuel 8193 [] s (omega arith) (omega arith)
