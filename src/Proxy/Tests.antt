-- ===== src/Proxy/Tests.antt =====
-- The proxies on concrete inputs.
use vaiexia_obfs.Common.{
  ◌+◌, ◌≡◌, ◌≢◌, refl, some, [], ◌∷◌, ◌++◌, ok, err, arith, out_of_fuel, codes, none,
}
use vaiexia_obfs.External.{Bytes}
use vaiexia_obfs.Stream.{Stream, eof}
use vaiexia_obfs.Proxy.Number.{parse_u16, print_u16}
use vaiexia_obfs.Proxy.Number.RoundTrip.{parse_u16-print_u16}
use vaiexia_obfs.Proxy.Addr.{parse_addr}
use vaiexia_obfs.Proxy.Addr.RoundTrip.{parse_addr-print}
use vaiexia_obfs.Proxy.Base64.{base64_encode}
use vaiexia_obfs.Proxy.Base64.RoundTrip.{base64_decode, base64_decode-base64_encode}
use vaiexia_obfs.Proxy.Socks5.Success.{Grants, moved, tunnel_socks5_succeeds}
use vaiexia_obfs.Proxy.Dial.{ProxyConfig, socks5, http_connect}
use vaiexia_obfs.Proxy.Socks5.{
  ProxyAuth, tunnel_socks5, greeting, connect_request, sub_negotiation, methods,
}
use vaiexia_obfs.Proxy.Socks5.Wire.{ipv4}
use vaiexia_obfs.Proxy.HttpConnect.{
  tunnel_http_connect, http_request, read_header, max_response, ends_with, is_utf8, authorization,
}
use vaiexia_obfs.Proxy.HttpConnect.Header.{
  FirstEnd, read_header_total, tunnel_http_connect_succeeds,
}
use vaiexia_obfs.Proxy.HttpConnect.Status.{IsGrant, request_text}

parse_u16_example : parse_u16 (print_u16 8080) ≡ some 8080
parse_u16_example = parse_u16-print_u16 8080 (omega arith)

parse_addr_example : parse_addr (codes "::1" ++ b':' ∷ print_u16 1080) ≡ ok (codes "::1", 1080)
parse_addr_example = parse_addr-print (codes "::1") 1080 (omega arith)

base64_example :
    base64_decode (base64_encode (117 ∷ 58 ∷ 112 ∷ 119 ∷ [])) ≡ 117 ∷ 58 ∷ 112 ∷ 119 ∷ []
base64_example =
    base64_decode-base64_encode (117 ∷ 58 ∷ 112 ∷ 119 ∷ [])
      (omega arith, (omega arith, (omega arith, (omega arith, tt))))

abbrev creds : ProxyAuth
creds = record { user = codes "u"; pass = codes "p" }

abbrev socks_stream : Stream
socks_stream = record {
  incoming = 5 ∷ 2 ∷ 1 ∷ 0 ∷ 5 ∷ 0 ∷ 0 ∷ 1 ∷ 10 ∷ 0 ∷ 0 ∷ 1 ∷ 31 ∷ 144 ∷ 42 ∷ [];
  ending = eof;
  sizes = [];
  room = 40;
  outgoing = [];
}

socks5_example : tunnel_socks5 (codes "h") 80 (some creds) socks_stream ≡ (
  ok tt,
  moved
      (greeting (some creds) ++ (sub_negotiation creds ++ connect_request (codes "h") 80))
      (42 ∷ [])
      socks_stream,
)
unfolding greeting connect_request sub_negotiation methods
socks5_example =
    tunnel_socks5_succeeds (codes "h") 80 (some creds) (5 ∷ 2 ∷ 1 ∷ 0 ∷ []) (sub_negotiation creds)
      (ipv4 10 0 0 1) 0 31 144 (42 ∷ []) socks_stream
      (Grants.by_password creds 1 refl (omega arith) (omega arith) refl refl) (omega arith)
      (omega arith) refl

read_header_example : (read_header (max_response + 1) [] socks_stream).0 ≢ err out_of_fuel
read_header_example = read_header_total socks_stream

abbrev http_header : Bytes
http_header = codes "HTTP/1.1 200 OK" ++ 13 ∷ 10 ∷ 13 ∷ 10 ∷ []

abbrev http_stream : Stream
http_stream = record {
  incoming = http_header ++ 42 ∷ [];
  ending = eof;
  sizes = [];
  room = 400;
  outgoing = [];
}

abbrev header_ends : FirstEnd [] http_header
unfolding ends_with
header_ends = (
  refl,
  (
    refl,
    (
      refl,
      (
        refl,
        (
          refl,
          (
            refl,
            (
              refl,
              (
                refl,
                (
                  refl,
                  (refl, (refl, (refl, (refl, (refl, (refl, (refl, (refl, (refl, refl))))))))),
                ),
              ),
            ),
          ),
        ),
      ),
    ),
  ),
)

abbrev http_grants : IsGrant http_header
unfolding is_utf8
http_grants = record {
  version = codes "HTTP/1.1";
  reason = codes "OK";
  fields = 13 ∷ 10 ∷ [];
  whole = refl;
  no_space = (refl, (refl, (refl, (refl, (refl, (refl, (refl, (refl, tt))))))));
  one_line = (refl, (refl, (refl, (refl, (refl, (refl, (refl, (refl, tt))))))));
  reason_line = (refl, (refl, tt));
  utf8 = refl;
}

http_connect_example :
    tunnel_http_connect (codes "h") 80 (some creds) http_stream
    ≡ (ok tt, moved (request_text (codes "h") 80 (some creds)) (42 ∷ []) http_stream)
unfolding http_request print_u16 authorization base64_encode
http_connect_example =
    tunnel_http_connect_succeeds (codes "h") 80 (some creds) http_header (42 ∷ []) http_stream
      header_ends (omega arith) http_grants (omega arith) refl

-- A SOCKS5 proxy, and behind it an HTTP proxy that connects to the target.
abbrev chain : ProxyConfig
chain = record {
  kind = socks5;
  addr = codes "p:1";
  auth = none;
  chain = record { kind = http_connect; addr = codes "q:2"; auth = none } ∷ [];
}

abbrev chain_stream : Stream
chain_stream = record {
  incoming =
      ((5 ∷ 0 ∷ []) ++ (5 ∷ 0 ∷ 0 ∷ 1 ∷ 10 ∷ 0 ∷ 0 ∷ 1 ∷ 31 ∷ 144 ∷ []))
      ++ (http_header ++ 42 ∷ []);
  ending = eof;
  sizes = [];
  room = 400;
  outgoing = [];
}

abbrev chain_out : Bytes
chain_out =
    (greeting none ++ ([] ++ connect_request (codes "q") 2))
    ++ (request_text (codes "h") 80 none ++ [])
