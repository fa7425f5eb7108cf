-- ===== src/Proxy/Base64.antt =====
-- src/proxy/http_connect.rs: `base64_encode`. The shifted bytes of a chunk have no bit in common,
-- so that their `|` is a sum.
pub mod RoundTrip
use vaiexia_obfs.Common.{ℕ, ◌+◌, ◌*◌, ◌/◌, ◌%◌, ◌^◌, List, [], ◌∷◌, codes, get_or}
use vaiexia_obfs.External.{Bytes}

abbrev pub chars : Bytes
chars = codes "ABCDEFGHIJKLMNOPQRSTUVWXYZabcdefghijklmnopqrstuvwxyz0123456789+/"

unfoldable pub char_at : ℕ → ℕ
char_at i = get_or chars i 0

abbrev pub join : ℕ → ℕ → ℕ → ℕ
join b0 b1 b2 = b0 * 2 ^ 16 + b1 * 2 ^ 8 + b2

-- One recursive call for each chunk of three bytes; the last may be shorter.
unfoldable pub base64_encode : Bytes → Bytes
base64_encode [] = []
base64_encode (b0 ∷ []) =
    let n = join b0 0 0 in char_at (n / 2 ^ 18) ∷ char_at (n / 2 ^ 12 % 64) ∷ b'=' ∷ b'=' ∷ []
base64_encode (b0 ∷ b1 ∷ []) =
    let n = join b0 b1 0 in
    char_at (n / 2 ^ 18) ∷ char_at (n / 2 ^ 12 % 64) ∷ char_at (n / 2 ^ 6 % 64) ∷ b'=' ∷ []
base64_encode (b0 ∷ b1 ∷ b2 ∷ rest) =
    let n = join b0 b1 b2 in
    char_at (n / 2 ^ 18)
    ∷ char_at (n / 2 ^ 12 % 64)
    ∷ char_at (n / 2 ^ 6 % 64)
    ∷ char_at (n % 64)
    ∷ base64_encode rest
