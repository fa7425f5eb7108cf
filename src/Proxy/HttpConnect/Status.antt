-- ===== src/Proxy/HttpConnect/Status.antt =====
-- What src/proxy/http_connect.rs sends, and the responses that it accepts, described without its code.
use mathlib.Core.Path.{subst}
use vaiexia_obfs.Common.{
  ℕ, ◌≡◌, refl, sym, ◌∙◌, ap, true, false, Option, none, some, [], ◌∷◌, ◌++◌, Result, ok, arith,
  codes, ◌⊎◌, inl, inr, Bool-cases, ◌==◌, All, append_assoc, ObfsError, and_then, ok_or, ==_iff,
}
use vaiexia_obfs.External.{Bytes}
use vaiexia_obfs.Proxy.Number.{parse_u16, print_u16}
use vaiexia_obfs.Proxy.HttpConnect.{
  is_utf8, split_first, strip_cr, first_line, first_word, code_part, check_status, check_code,
  check_line, parse_response, http_request, authorization,
}
use vaiexia_obfs.Proxy.Socks5.{ProxyAuth}
use vaiexia_obfs.Proxy.Base64.{base64_encode}

-- The text of a request, written out: the target in the request line and in the Host field, the login
-- if there is one, and a blank line.
abbrev login_text : Option ProxyAuth → Bytes
login_text none = []
login_text (some creds) =
    codes "Proxy-Authorization: Basic "
    ++ (base64_encode (creds.user ++ 58 ∷ creds.pass) ++ 13 ∷ 10 ∷ [])

abbrev pub request_text : Bytes → ℕ → Option ProxyAuth → Bytes
request_text host port auth =
    codes "CONNECT "
    ++ ((host ++ 58 ∷ print_u16 port)
        ++ (codes " HTTP/1.1"
            ++ ((13 ∷ 10 ∷ [])
                ++ (codes "Host: "
                    ++ ((host ++ 58 ∷ print_u16 port)
                        ++ ((13 ∷ 10 ∷ []) ++ (login_text auth ++ 13 ∷ 10 ∷ [])))))))

pub http_request-text :
    (host : Bytes) (port : ℕ) (auth : Option ProxyAuth)
    → http_request host port auth ≡ request_text host port auth
unfolding http_request authorization
http_request-text host port none = refl
http_request-text host port (some creds) = refl

-- None of the bytes is `sep`.
abbrev pub Lacks : ℕ → Bytes → Type 0
Lacks sep bytes = All (λ b. (b == sep) ≡ false) bytes

-- A response whose first line is "VERSION 200 REASON", with the digits 50 48 48; it ends by CR LF.
pub record IsGrant (header : Bytes) : Type 0 where
  pub version : Bytes
  pub reason : Bytes
  pub fields : Bytes
  pub whole : header ≡ version ++ (32 ∷ 50 ∷ 48 ∷ 48 ∷ 32 ∷ (reason ++ 13 ∷ 10 ∷ fields))
  pub no_space : Lacks 32 version
  pub one_line : Lacks 10 version
  pub reason_line : Lacks 10 reason
  pub utf8 : is_utf8 header ≡ true

split_first-append :
    (sep : ℕ) (xs ys : Bytes) → Lacks sep xs → split_first sep (xs ++ sep ∷ ys) ≡ (xs, some ys)
unfolding split_first
split_first-append sep [] ys h = ground arith
split_first-append sep (x ∷ xs) ys h = rw (split_first-append sep xs ys h.1, h.0) refl

strip_cr-append : (xs : Bytes) → strip_cr (xs ++ 13 ∷ []) ≡ xs
unfolding strip_cr
strip_cr-append [] = refl
strip_cr-append (x ∷ []) = refl
strip_cr-append (x ∷ y ∷ xs) = ap (λ l. x ∷ l) (strip_cr-append (y ∷ xs))

Lacks-append : (sep : ℕ) (xs ys : Bytes) → Lacks sep xs → Lacks sep ys → Lacks sep (xs ++ ys)
Lacks-append sep [] ys h k = k
Lacks-append sep (x ∷ xs) ys h k = (h.0, Lacks-append sep xs ys h.1 k)

Lacks-prefix : (sep : ℕ) (xs ys : Bytes) → Lacks sep (xs ++ ys) → Lacks sep xs
Lacks-prefix sep [] ys h = tt
Lacks-prefix sep (x ∷ xs) ys h = (h.0, Lacks-prefix sep xs ys h.1)

first_line-append :
    (line fields : Bytes) → Lacks 10 line → first_line (line ++ 13 ∷ 10 ∷ fields) ≡ some line
unfolding first_line strip_cr
first_line-append [] fields h =
    ap (λ o. some (strip_cr o.0)) (split_first-append 10 (13 ∷ []) fields (refl, tt))
first_line-append (c ∷ cs) fields h =
    ap (λ xs. some (strip_cr (split_first 10 xs).0))
      (sym (append_assoc (c ∷ cs) (13 ∷ []) (10 ∷ fields)))
    ∙ ap (λ o. some (strip_cr o.0))
        (split_first-append 10 ((c ∷ cs) ++ 13 ∷ []) fields
          (Lacks-append 10 (c ∷ cs) (13 ∷ []) h (refl, tt)))
    ∙ ap some (strip_cr-append (c ∷ cs))

-- A response with a status line of 200 is accepted.
pub IsGrant-accepted : (header : Bytes) → IsGrant header → parse_response header ≡ ok tt
unfolding parse_response check_line check_code check_status code_part first_word split_first
    parse_u16
IsGrant-accepted header g =
    let line = g.version ++ (32 ∷ 50 ∷ 48 ∷ 48 ∷ 32 ∷ g.reason) in
    let whole : header ≡ line ++ 13 ∷ 10 ∷ g.fields =
      g.whole
      ∙ sym (append_assoc g.version (32 ∷ 50 ∷ 48 ∷ 48 ∷ 32 ∷ g.reason) (13 ∷ 10 ∷ g.fields)) in
    let first : first_line header ≡ some line =
      ap first_line whole
      ∙ first_line-append line g.fields (
          Lacks-append 10 g.version (32 ∷ 50 ∷ 48 ∷ 48 ∷ 32 ∷ g.reason) g.one_line
            (refl, (refl, (refl, (refl, (refl, g.reason_line)))))) in
    rw (g.utf8, first, split_first-append 32 g.version (50 ∷ 48 ∷ 48 ∷ 32 ∷ g.reason) g.no_space)
      refl

-- What stands behind a part that ends at a separator, if there is one.
abbrev from_sep : ℕ → Option Bytes → Bytes
from_sep sep none = []
from_sep sep (some rest) = sep ∷ rest

record IsSplit (sep : ℕ) (xs : Bytes) (o : Bytes × Option Bytes) : Type 0 where
  pub lacks : Lacks sep o.0
  pub whole : xs ≡ o.0 ++ from_sep sep o.1

split_first-IsSplit : (sep : ℕ) (xs : Bytes) → IsSplit sep xs (split_first sep xs)
unfolding split_first
split_first-IsSplit sep [] = record { lacks = tt; whole = refl }
split_first-IsSplit sep (c ∷ cs) =
    let k = split_first-IsSplit sep cs in
    elim (Bool-cases (c == sep)) [
      | inl same ↦ rw same (record { lacks = tt; whole = ap (λ x. x ∷ cs) ((==_iff c sep).0 same) })
      | inr other ↦ rw other (record { lacks = (other, k.lacks); whole = ap (λ l. c ∷ l) k.whole })
    ]

-- The bytes behind the status line: none, or a CR or LF and more.
abbrev pub EndsLine : Bytes → Type 0
EndsLine [] = Unit {0}
EndsLine (c ∷ cs) = (c ≡ 13) ⊎ (c ≡ 10)

-- The bytes behind the status code: none, or a space and more.
abbrev pub EndsCode : Bytes → Type 0
EndsCode [] = Unit {0}
EndsCode (c ∷ cs) = c ≡ 32

-- A response whose first line has 200 for its second part between spaces.
pub record HasStatus200 (header : Bytes) : Type 0 where
  pub version : Bytes
  pub code : Bytes
  pub reason : Bytes
  pub after : Bytes
  pub whole : header ≡ (version ++ 32 ∷ (code ++ reason)) ++ after
  pub one_line : Lacks 10 (version ++ 32 ∷ (code ++ reason))
  pub no_space : Lacks 32 version × Lacks 32 code
  pub ends : EndsCode reason × EndsLine after
  pub number : parse_u16 code ≡ some 200

strip_cr-prefix :
    (xs : Bytes) → (cr : Bytes) × (xs ≡ strip_cr xs ++ cr) × ((cr ≡ []) ⊎ (cr ≡ 13 ∷ []))
unfolding strip_cr
strip_cr-prefix [] = ([], refl, inl refl)
strip_cr-prefix (c ∷ []) = elim (Bool-cases (c == 13)) [
  | inl same ↦ rw same (13 ∷ [], ap (λ x. x ∷ []) ((==_iff c 13).0 same), inr refl)
  | inr other ↦ rw other ([], refl, inl refl)
]
strip_cr-prefix (c ∷ d ∷ cs) =
    let (cr, whole, which) = strip_cr-prefix (d ∷ cs) in (cr, ap (λ l. c ∷ l) whole, which)

EndsLine-from :
    (cr : Bytes) (o : Option Bytes) → (cr ≡ []) ⊎ (cr ≡ 13 ∷ []) → EndsLine (cr ++ from_sep 10 o)
EndsLine-from [] none h = tt
EndsLine-from [] (some rest) h = inr refl
EndsLine-from (c ∷ cs) o (inl none_there) = cc
EndsLine-from (c ∷ cs) o (inr cr) = inl cc

-- The first line of a header, and where it ends.
record IsFirst (header line : Bytes) : Type 0 where
  pub after : Bytes
  pub whole : header ≡ line ++ after
  pub one_line : Lacks 10 line
  pub ends : EndsLine after

first_line-IsFirst : (header line : Bytes) → first_line header ≡ some line → IsFirst header line
unfolding first_line
first_line-IsFirst [] line h = cc
first_line-IsFirst (c ∷ cs) line h =
    let o = split_first 10 (c ∷ cs) in
    let k = split_first-IsSplit 10 (c ∷ cs) in
    let (cr, stripped, which) = strip_cr-prefix o.0 in
    let same : strip_cr o.0 ≡ line = cc in
    let front : o.0 ≡ line ++ cr = stripped ∙ ap (λ l. l ++ cr) same in
    record {
      after = cr ++ from_sep 10 o.1;
      whole =
          k.whole ∙ ap (λ l. l ++ from_sep 10 o.1) front ∙ append_assoc line cr (from_sep 10 o.1);
      one_line = Lacks-prefix 10 line cr (subst (Lacks 10) front k.lacks);
      ends = EndsLine-from cr o.1 which;
    }

EndsCode-from : (o : Option Bytes) → EndsCode (from_sep 32 o)
EndsCode-from none = tt
EndsCode-from (some rest) = refl

record IsCode (line code : Bytes) : Type 0 where
  pub version : Bytes
  pub reason : Bytes
  pub whole : line ≡ version ++ 32 ∷ (code ++ reason)
  pub no_space : Lacks 32 version × Lacks 32 code
  pub ends : EndsCode reason

code_part-IsCode : (line code : Bytes) → code_part line ≡ some code → IsCode line code
unfolding code_part first_word
code_part-IsCode line code h = by_rest (split_first 32 line) (split_first-IsSplit 32 line) h
  where
    by_rest :
        (o : Bytes × Option Bytes)
        → IsSplit 32 line o
        → first_word o.1 ≡ some code
        → IsCode line code
    by_rest (version, none) k e = cc
    by_rest (version, some rest) k e =
        let p = split_first 32 rest in
        let second = split_first-IsSplit 32 rest in
        let same : p.0 ≡ code = cc in
        record {
          version = version;
          reason = from_sep 32 p.1;
          whole =
              k.whole
              ∙ ap (λ l. version ++ 32 ∷ l) (second.whole ∙ ap (λ l. l ++ from_sep 32 p.1) same);
          no_space = (k.lacks, subst (Lacks 32) same second.lacks);
          ends = EndsCode-from p.1;
        }

and_then-some :
    {A : Type 0} (o : Option A) (e : ObfsError) (f : A → Result (Unit {0}))
    → and_then (ok_or o e) f ≡ ok tt
    → (x : A) × (o ≡ some x) × (f x ≡ ok tt)
and_then-some none e f h = cc
and_then-some (some x) e f h = (x, refl, h)

check_status-200 : (status : ℕ) → check_status status ≡ ok tt → status ≡ 200
unfolding check_status
check_status-200 status h = elim (Bool-cases (status == 200)) [
  | inl same ↦ (==_iff status 200).0 same
  | inr other ↦ cc (rw other at h)
]

-- Only a response with a status of 200 is accepted.
pub accepted-HasStatus200 : (header : Bytes) → parse_response header ≡ ok tt → HasStatus200 header
unfolding parse_response check_line check_code
accepted-HasStatus200 header h = elim (Bool-cases (is_utf8 header)) [
  | inr bad ↦ cc (rw bad at h)
  | inl utf8 ↦
      let (line, first, in_line) = and_then-some (first_line header) _ check_line (rw utf8 at h) in
      let (code, part, in_code) = and_then-some (code_part line) _ check_code in_line in
      let (status, number, is_200) = and_then-some (parse_u16 code) _ check_status in_code in
      let l = first_line-IsFirst header line first in
      let c = code_part-IsCode line code part in
      record {
        version = c.version;
        code = code;
        reason = c.reason;
        after = l.after;
        whole = l.whole ∙ ap (λ x. x ++ l.after) c.whole;
        one_line = subst (Lacks 10) c.whole l.one_line;
        no_space = c.no_space;
        ends = (c.ends, l.ends);
        number = number ∙ ap some (check_status-200 status is_200);
      }
]
