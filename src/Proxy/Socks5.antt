-- ===== src/Proxy/Socks5.antt =====
-- src/proxy/socks5.rs: the SOCKS5 negotiation on a connected stream. A text is its UTF-8 bytes.
pub mod Wire
pub mod Success
pub mod Heard
pub mod Requested
pub mod Sound
use vaiexia_obfs.Common.{
  ℕ, ◌+◌, ◌/◌, ◌%◌, Bool, true, false, not, ◌&&◌, Option, none, some, List, [], ◌∷◌, ◌++◌, String,
  Result, ok, err, ok_or, ◌==◌, leb, ltb, length, get_or, ◌||◌, if◌then◌else◌,
}
use vaiexia_obfs.External.{Bytes}
use vaiexia_obfs.Common.Effects.{◌>>=◌, ◌>>◌, pure, raise, lift, guard}
use vaiexia_obfs.Stream.{Io, io_err, read_exact, write_all}

pub record ProxyAuth : Type 0 where
  pub user : Bytes
  pub pass : Bytes

-- The two methods that the client can offer.
unfoldable pub methods : Option ProxyAuth → Bytes
methods none = 0x00 ∷ []
methods (some creds) = 0x00 ∷ 0x02 ∷ []

unfoldable pub greeting : Option ProxyAuth → Bytes
greeting auth = 0x05 ∷ length (methods auth) ∷ methods auth

-- The casts to u8 are exact: each stands behind a test that the length is at most 255.
unfoldable pub sub_negotiation : ProxyAuth → Bytes
sub_negotiation creds =
    0x01 ∷ (length creds.user % 256) ∷ (creds.user ++ (length creds.pass % 256) ∷ creds.pass)

unfoldable pub connect_request : Bytes → ℕ → Bytes
connect_request host port =
    0x05
    ∷ 0x01
    ∷ 0x00
    ∷ 0x03
    ∷ (length host % 256)
    ∷ (host ++ (port / 256 % 256) ∷ (port % 256) ∷ [])

unfoldable pub send_credentials : ProxyAuth → Io (Unit {0})
send_credentials creds = do
  guard (leb (length creds.user) 255 && leb (length creds.pass) 255)
      (io_err "SOCKS5: username or password too long")
  write_all (sub_negotiation creds)
  auth_reply ← read_exact 2
  guard (get_or auth_reply 1 0 == 0x00) (io_err "SOCKS5: authentication failed")

unfoldable pub authenticate : Option ProxyAuth → Io (Unit {0})
authenticate none = raise (io_err "SOCKS5: server requires auth but none provided")
authenticate (some creds) = send_credentials creds

abbrev pub failure_text : ℕ → String
failure_text code =
    if code == 0x01
    then "SOCKS5: CONNECT failed: general SOCKS server failure"
    else if code == 0x02
    then "SOCKS5: CONNECT failed: connection not allowed by ruleset"
    else if code == 0x03
    then "SOCKS5: CONNECT failed: network unreachable"
    else if code == 0x04
    then "SOCKS5: CONNECT failed: host unreachable"
    else if code == 0x05
    then "SOCKS5: CONNECT failed: connection refused"
    else if code == 0x06
    then "SOCKS5: CONNECT failed: TTL expired"
    else if code == 0x07
    then "SOCKS5: CONNECT failed: command not supported"
    else if code == 0x08
    then "SOCKS5: CONNECT failed: address type not supported"
    else "SOCKS5: CONNECT failed: unknown error"

-- The address type 3: a length, as many bytes, and the port.
consume_domain : Io (Unit {0})
consume_domain = do len_buf ← read_exact 1; read_exact (get_or len_buf 0 0 + 2); pure tt

unfoldable pub consume_bnd_addr : ℕ → Io (Unit {0})
unfolding consume_domain
consume_bnd_addr atyp =
    if atyp == 0x01
    then (read_exact 6 >> pure tt)
    else if atyp == 0x03
    then consume_domain
    else if atyp == 0x04
    then (read_exact 18 >> pure tt)
    else raise (io_err "SOCKS5: unknown address type in reply")

unfoldable pub connect : Bytes → ℕ → Io (Unit {0})
connect host port = do
  guard (leb (length host) 255) (io_err "SOCKS5: target hostname too long")
  write_all (connect_request host port)
  reply_hdr ← read_exact 4
  guard (get_or reply_hdr 0 0 == 0x05) (io_err "SOCKS5: invalid reply version")
  guard (get_or reply_hdr 1 0 == 0x00) (io_err (failure_text (get_or reply_hdr 1 0)))
  consume_bnd_addr (get_or reply_hdr 3 0)

unfoldable pub tunnel_socks5 : Bytes → ℕ → Option ProxyAuth → Io (Unit {0})
tunnel_socks5 host port auth = do
  write_all (greeting auth)
  method_reply ← read_exact 2
  guard (get_or method_reply 0 0 == 0x05) (io_err "SOCKS5: invalid greeting reply version")
  let selected = get_or method_reply 1 0
  guard (not (selected == 0xFF)) (io_err "SOCKS5: no acceptable authentication method")
  if selected == 0x02 then authenticate auth else pure tt
  connect host port
