-- ===== src/Proxy/HttpConnect.antt =====
-- src/proxy/http_connect.rs: the HTTP CONNECT negotiation on a connected stream.
pub mod Status
pub mod Header
pub mod Sound
use vaiexia_obfs.Common.{
  ℕ, zero, suc, ◌+◌, ◌-◌, Bool, true, false, not, ◌&&◌, Option, none, some, List, [], ◌∷◌, ◌++◌,
  codes, String, Result, ok, err, ok_or, ObfsError, io, other, text, numbered, out_of_fuel,
  and_then, ◌==◌, leb, ltb, length, drop, if◌then◌else◌,
}
use vaiexia_obfs.External.{Bytes}
use vaiexia_obfs.Verifier.{bytes_eq}
use vaiexia_obfs.Common.Effects.{◌>>=◌, ◌>>◌, pure, raise, lift, guard}
use vaiexia_obfs.Stream.{Io, io_err, read_exact, write_all}
use vaiexia_obfs.Proxy.Number.{parse_u16, print_u16}
use vaiexia_obfs.Proxy.Base64.{base64_encode}
use vaiexia_obfs.Proxy.Socks5.{ProxyAuth}

abbrev pub crlf : Bytes
crlf = 13 ∷ 10 ∷ []

abbrev pub end_of_header : Bytes
end_of_header = 13 ∷ 10 ∷ 13 ∷ 10 ∷ []

-- The request

unfoldable pub authorization : Option ProxyAuth → Bytes
authorization none = []
authorization (some creds) =
    codes "Proxy-Authorization: Basic " ++ (base64_encode (creds.user ++ b':' ∷ creds.pass) ++ crlf)

unfoldable pub http_request : Bytes → ℕ → Option ProxyAuth → Bytes
http_request host port auth =
    let target = host ++ b':' ∷ print_u16 port in
    codes "CONNECT "
    ++ (target
        ++ (codes " HTTP/1.1"
            ++ (crlf ++ (codes "Host: " ++ (target ++ (crlf ++ (authorization auth ++ crlf)))))))

-- The response

abbrev pub max_response : ℕ
max_response = 8192

unfoldable pub ends_with : Bytes → Bytes → Bool
ends_with buf suffix =
    leb (length suffix) (length buf) && bytes_eq (drop (length buf - length suffix) buf) suffix

abbrev pub too_large : ObfsError
too_large = io_err "HTTP CONNECT: response header too large"

-- The loop over single bytes. A round ends it, or makes the buffer longer by one; a buffer above the
-- maximum ends it, so `max_response + 1` rounds are enough (Header).
unfoldable pub read_header : ℕ → Bytes → Io Bytes
read_header zero buf = raise out_of_fuel
read_header (suc fuel) buf = do
  byte ← read_exact 1
  let next = read_header fuel (buf ++ byte)
  if ltb max_response (length (buf ++ byte))
      then raise too_large
      else if ends_with (buf ++ byte) end_of_header
      then pure (buf ++ byte)
      else next

-- str::from_utf8, as an automaton: how many continuation bytes are due, and the range of the next.
abbrev pub Utf8 : Type 0
Utf8 = Option (ℕ × ℕ × ℕ)

abbrev between : ℕ → ℕ → ℕ → Bool
between lo hi b = leb lo b && leb b hi

utf8_start : ℕ → Utf8
utf8_start b =
    if ltb b 0x80
    then some (0, 0, 0)
    else if between 0xC2 0xDF b
    then some (1, 0x80, 0xBF)
    else if b == 0xE0
    then some (2, 0xA0, 0xBF)
    else if b == 0xED
    then some (2, 0x80, 0x9F)
    else if between 0xE1 0xEF b
    then some (2, 0x80, 0xBF)
    else if b == 0xF0
    then some (3, 0x90, 0xBF)
    else if between 0xF1 0xF3 b
    then some (3, 0x80, 0xBF)
    else if b == 0xF4
    then some (3, 0x80, 0x8F)
    else none

utf8_step : Utf8 → ℕ → Utf8
unfolding utf8_start
utf8_step none b = none
utf8_step (some (zero, lo, hi)) b = utf8_start b
utf8_step (some (suc due, lo, hi)) b = if between lo hi b then some (due, 0x80, 0xBF) else none

utf8_done : Utf8 → Bool
utf8_done none = false
utf8_done (some (due, lo, hi)) = due == 0

utf8_from : Utf8 → Bytes → Bool
unfolding utf8_step utf8_done
utf8_from state [] = utf8_done state
utf8_from state (b ∷ bs) = utf8_from (utf8_step state b) bs

unfoldable pub is_utf8 : Bytes → Bool
unfolding utf8_from
is_utf8 = utf8_from (some (0, 0, 0))

-- The bytes before the first `sep`, and those behind it if there is one.
unfoldable pub split_first : ℕ → Bytes → Bytes × Option Bytes
split_first sep [] = ([], none)
split_first sep (c ∷ cs) =
    let (before, after) = split_first sep cs in
    if c == sep then ([], some cs) else (c ∷ before, after)

unfoldable pub strip_cr : Bytes → Bytes
strip_cr [] = []
strip_cr (c ∷ []) = if c == 13 then [] else c ∷ []
strip_cr (c ∷ d ∷ cs) = c ∷ strip_cr (d ∷ cs)

-- `lines().next()`
unfoldable pub first_line : Bytes → Option Bytes
unfolding split_first strip_cr
first_line [] = none
first_line (c ∷ cs) = some (strip_cr (split_first 10 (c ∷ cs)).0)

unfoldable pub first_word : Option Bytes → Option Bytes
unfolding split_first
first_word none = none
first_word (some rest) = some (split_first 32 rest).0

-- The second part of `splitn(3, ' ')`.
unfoldable pub code_part : Bytes → Option Bytes
unfolding first_word
code_part line = first_word (split_first 32 line).1

unfoldable pub check_status : ℕ → Result (Unit {0})
check_status status_code =
    if status_code == 200
    then ok tt
    else err (io other (numbered "HTTP CONNECT: proxy returned status " status_code))

unfoldable pub check_code : Bytes → Result (Unit {0})
unfolding check_status
check_code code =
    and_then (ok_or (parse_u16 code) (io_err "HTTP CONNECT: non-numeric status code")) check_status

unfoldable pub check_line : Bytes → Result (Unit {0})
unfolding check_code
check_line line =
    and_then (ok_or (code_part line) (io_err "HTTP CONNECT: malformed status line")) check_code

unfoldable pub parse_response : Bytes → Result (Unit {0})
unfolding check_line
parse_response response =
    if is_utf8 response
    then and_then (ok_or (first_line response) (io_err "HTTP CONNECT: empty response")) check_line
    else err (io_err "HTTP CONNECT: non-UTF8 response")

unfoldable pub tunnel_http_connect : Bytes → ℕ → Option ProxyAuth → Io (Unit {0})
tunnel_http_connect host port auth = do
  write_all (http_request host port auth)
  response_buf ← read_header (max_response + 1) []
  lift (parse_response response_buf)
