-- ===== src/Proxy/Socks5/Success.antt =====
-- The negotiation against a server that follows the protocol.
use vaiexia_obfs.Common.{
  ℕ, ◌+◌, ◌-◌, ◌≤◌, ◌≡◌, ◌≢◌, refl, ◌∙◌, ap, Option, some, [], ◌∷◌, ◌++◌, Result, ok, arith, length,
  append_assoc, length-append, ne→==_false, le→leb,
}
use vaiexia_obfs.External.{Bytes}
use vaiexia_obfs.Stream.{Stream}
use vaiexia_obfs.Stream.Reads.{read_exact-append, read_exact_known, write_all-room}
use vaiexia_obfs.Proxy.Socks5.{
  ProxyAuth, greeting, sub_negotiation, connect_request, consume_bnd_addr, connect, tunnel_socks5,
  authenticate, send_credentials,
}
use vaiexia_obfs.Proxy.Socks5.Wire.{Bound, ipv4, domain, ipv6, bound_type, bound_bytes}

consume_bnd_addr-Bound :
    (b : Bound) (hi lo : ℕ) (rest : Bytes) (s : Stream)
    → s.incoming ≡ bound_bytes b hi lo ++ rest
    → consume_bnd_addr (bound_type b) s ≡ (ok tt, record s { incoming = rest })
unfolding consume_bnd_addr
consume_bnd_addr-Bound (ipv4 a b c d) hi lo rest s e =
    rw (read_exact-append s (a ∷ b ∷ c ∷ d ∷ hi ∷ lo ∷ []) rest e)
consume_bnd_addr-Bound (domain name) hi lo rest s e = rw (
  read_exact-append s (length name ∷ []) ((name ++ hi ∷ lo ∷ []) ++ rest) e,
  read_exact_known (length name + 2) (record s { incoming = (name ++ hi ∷ lo ∷ []) ++ rest })
      (name ++ hi ∷ lo ∷ []) rest (omega (arith, length-append name (hi ∷ lo ∷ []))) refl,
)
consume_bnd_addr-Bound (ipv6 address h) hi lo rest s e = rw (
    read_exact_known 18 s (address ++ hi ∷ lo ∷ []) rest
      (omega (arith, length-append address (hi ∷ lo ∷ []), h)) e)

-- The stream after a dialogue: the peer has taken `out`, and `rest` is still to be read.
abbrev pub moved : Bytes → Bytes → Stream → Stream
moved out rest s = record s {
  incoming = rest;
  outgoing = s.outgoing ++ out;
  room = s.room - length out;
}

abbrev succeeded : Stream → Result (Unit {0}) × Stream
succeeded s = (ok tt, s)

connect-Bound :
    (host : Bytes) (port : ℕ) (b : Bound) (rsv hi lo : ℕ) (rest : Bytes) (s : Stream)
    → length host ≤ 255
    → length (connect_request host port) ≤ s.room
    → s.incoming ≡ 0x05 ∷ 0x00 ∷ rsv ∷ bound_type b ∷ (bound_bytes b hi lo ++ rest)
    → connect host port s ≡ (ok tt, moved (connect_request host port) rest s)
unfolding connect
connect-Bound host port b rsv hi lo rest s short room e =
    rw
      (
        le→leb (length host) 255 short,
        write_all-room s (connect_request host port) room,
        read_exact-append
            (record s {
              outgoing = s.outgoing ++ connect_request host port;
              room = s.room - length (connect_request host port);
            })
            (0x05 ∷ 0x00 ∷ rsv ∷ bound_type b ∷ []) (bound_bytes b hi lo ++ rest) e,
      )
      (consume_bnd_addr-Bound b hi lo rest
        (moved (connect_request host port) (bound_bytes b hi lo ++ rest) s) refl)

pub moved-moved :
    (a b r rest : Bytes) (s : Stream) → moved b rest (moved a r s) ≡ moved (a ++ b) rest s
moved-moved a b r rest s = rw (append_assoc s.outgoing a b) (
    ap (λ (n : ℕ). record s { incoming = rest; outgoing = s.outgoing ++ (a ++ b); room = n })
      (omega (arith, length-append a b)))

-- How a server grants a method: its bytes, and the client's behind the greeting. A method other than
-- username and password is granted without more, whether the client has offered it or not.
pub data Grants (auth : Option ProxyAuth) (server client : Bytes) : Type 0 where
  by_method :
      (selected : ℕ)
      → selected ≢ 0x02
      → selected ≢ 0xFF
      → server ≡ 0x05 ∷ selected ∷ []
      → client ≡ []
      → Grants auth server client
  by_password :
      (creds : ProxyAuth) (version : ℕ)
      → auth ≡ some creds
      → length creds.user ≤ 255
      → length creds.pass ≤ 255
      → server ≡ 0x05 ∷ 0x02 ∷ version ∷ 0x00 ∷ []
      → client ≡ sub_negotiation creds
      → Grants auth server client

send_credentials-granted :
    (creds : ProxyAuth) (version : ℕ) (rest : Bytes) (s : Stream)
    → length creds.user ≤ 255
    → length creds.pass ≤ 255
    → length (sub_negotiation creds) ≤ s.room
    → s.incoming ≡ version ∷ 0x00 ∷ rest
    → send_credentials creds s ≡ (ok tt, moved (sub_negotiation creds) rest s)
unfolding send_credentials
send_credentials-granted creds version rest s user pass room e = rw (
  le→leb (length creds.user) 255 user,
  le→leb (length creds.pass) 255 pass,
  write_all-room s (sub_negotiation creds) room,
  read_exact-append (moved (sub_negotiation creds) s.incoming s) (version ∷ 0x00 ∷ []) rest e,
)

-- The reply of a server that has connected.
abbrev pub connected : Bound → ℕ → ℕ → ℕ → Bytes → Bytes
connected b rsv hi lo rest = 0x05 ∷ 0x00 ∷ rsv ∷ bound_type b ∷ (bound_bytes b hi lo ++ rest)

tunnel_by_method :
    (host : Bytes) (port : ℕ) (auth : Option ProxyAuth) (selected : ℕ) (b : Bound) (rsv hi lo : ℕ)
    (rest : Bytes) (s : Stream)
    → selected ≢ 0x02
    → selected ≢ 0xFF
    → length host ≤ 255
    → length (greeting auth ++ connect_request host port) ≤ s.room
    → s.incoming ≡ 0x05 ∷ selected ∷ connected b rsv hi lo rest
    → tunnel_socks5 host port auth s
      ≡ (ok tt, moved (greeting auth ++ connect_request host port) rest s)
unfolding tunnel_socks5
tunnel_by_method host port auth selected b rsv hi lo rest s not_password allowed short room e =
    let sizes = length-append (greeting auth) (connect_request host port) in
    let tail = connected b rsv hi lo rest in
    rw
      (
        write_all-room s (greeting auth) (omega (arith, sizes)),
        read_exact-append (moved (greeting auth) s.incoming s) (0x05 ∷ selected ∷ []) tail e,
        ne→==_false selected 0xFF allowed,
        ne→==_false selected 0x02 not_password,
      )
      (connect-Bound host port b rsv hi lo rest (moved (greeting auth) tail s) short
          (omega (arith, sizes)) refl
        ∙ ap succeeded (moved-moved (greeting auth) (connect_request host port) tail rest s))

tunnel_by_password :
    (host : Bytes) (port : ℕ) (creds : ProxyAuth) (version : ℕ) (b : Bound) (rsv hi lo : ℕ)
    (rest : Bytes) (s : Stream)
    → length creds.user ≤ 255
    → length creds.pass ≤ 255
    → length host ≤ 255
    → length (greeting (some creds) ++ (sub_negotiation creds ++ connect_request host port))
      ≤ s.room
    → s.incoming ≡ 0x05 ∷ 0x02 ∷ version ∷ 0x00 ∷ connected b rsv hi lo rest
    → tunnel_socks5 host port (some creds) s ≡ (
      ok tt,
      moved (greeting (some creds) ++ (sub_negotiation creds ++ connect_request host port)) rest s,
    )
unfolding tunnel_socks5 authenticate
tunnel_by_password host port creds version b rsv hi lo rest s user pass short room e =
    let hello = greeting (some creds) in
    let login = sub_negotiation creds in
    let call = connect_request host port in
    let sizes = length-append hello (login ++ call) in
    let sizes' = length-append login call in
    let tail = connected b rsv hi lo rest in
    rw
      (
        write_all-room s hello (omega (arith, sizes)),
        read_exact-append (moved hello s.incoming s) (0x05 ∷ 0x02 ∷ []) (version ∷ 0x00 ∷ tail) e,
        send_credentials-granted creds version tail (moved hello (version ∷ 0x00 ∷ tail) s) user
            pass (omega (arith, sizes, sizes')) refl,
        moved-moved hello login (version ∷ 0x00 ∷ tail) tail s,
      )
      (connect-Bound host port b rsv hi lo rest (moved (hello ++ login) tail s) short
          (omega (arith, sizes, sizes', length-append hello login)) refl
        ∙ ap succeeded (
            moved-moved (hello ++ login) call tail rest s
            ∙ ap (λ out. moved out rest s) (append_assoc hello login call)))

-- The negotiation succeeds against every server that grants a method and connects to the target,
-- whatever address it has bound: the server is sent the greeting, the credentials where it asks for
-- them, and the request, and the stream is left right behind the reply, no byte of what follows read.
-- The host name, the user and the password have 255 bytes at most, and the peer takes the messages.
pub tunnel_socks5_succeeds :
    (host : Bytes) (port : ℕ) (auth : Option ProxyAuth) (server client : Bytes) (b : Bound)
    (rsv hi lo : ℕ) (rest : Bytes) (s : Stream)
    → Grants auth server client
    → length host ≤ 255
    → length (greeting auth ++ (client ++ connect_request host port)) ≤ s.room
    → s.incoming ≡ server ++ connected b rsv hi lo rest
    → tunnel_socks5 host port auth s
      ≡ (ok tt, moved (greeting auth ++ (client ++ connect_request host port)) rest s)
tunnel_socks5_succeeds host port auth server client b rsv hi lo rest s
      (by_method selected not_password allowed es ec) short room e =
    rw ec (
      tunnel_by_method host port auth selected b rsv hi lo rest s not_password allowed short
        (rw ec at room) (e ∙ ap (λ (x : Bytes). x ++ connected b rsv hi lo rest) es))
tunnel_socks5_succeeds host port auth server client b rsv hi lo rest s
      (by_password creds version ea user pass es ec) short room e =
    rw (ea, ec)
      (tunnel_by_password host port creds version b rsv hi lo rest s user pass short
        (rw (ea, ec) at room) (e ∙ ap (λ (x : Bytes). x ++ connected b rsv hi lo rest) es))
