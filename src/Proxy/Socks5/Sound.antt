-- ===== src/Proxy/Socks5/Sound.antt =====
-- What a negotiation that has succeeded has said and heard.
use mathlib.Core.Path.{subst}
use vaiexia_obfs.Common.{
  ℕ, if◌then◌else◌, ◌≤◌, ◌≡◌, ◌≢◌, refl, sym, ◌∙◌, not, ◌&&◌, Bool-cases, Option, none, some, inl,
  inr, [], ◌∷◌, ◌++◌, ok, arith, length, leb, ◌==◌, ==_iff, get_or, append-nil_right,
}
use vaiexia_obfs.Common.Effects.{◌>>=◌, ◌>>◌, pure, guard, bind-ok, guard-ok}
use vaiexia_obfs.External.{Bytes}
use vaiexia_obfs.Stream.{Io, Stream, read_exact, write_all, io_err}
use vaiexia_obfs.Stream.Spoke.{Spoke, Spoke-nothing, Spoke-then, read_exact-Spoke, guarded, written}
use vaiexia_obfs.Proxy.Socks5.{
  ProxyAuth, greeting, sub_negotiation, connect_request, connect, tunnel_socks5, authenticate,
  send_credentials,
}
use vaiexia_obfs.Proxy.Socks5.Wire.{Bound, bound_type, bound_bytes}
use vaiexia_obfs.Proxy.Socks5.Heard.{two_of}
use vaiexia_obfs.Proxy.Socks5.Requested.{connect-Connects}

-- What the selected method has asked for: nothing, or the credentials that the caller has given, which
-- the server has accepted.
pub data Login (auth : Option ProxyAuth) (selected : ℕ) : Bytes → Bytes → Type 0 where
  none_asked : selected ≢ 0x02 → Login auth selected [] []
  by_password :
      (creds : ProxyAuth) (version : ℕ)
      → auth ≡ some creds
      → selected ≡ 0x02
      → length creds.user ≤ 255
      → length creds.pass ≤ 255
      → Login auth selected (version ∷ 0x00 ∷ []) (sub_negotiation creds)

record LoggedIn (auth : Option ProxyAuth) (selected : ℕ) (s t : Stream) : Type 0 where
  pub server : Bytes
  pub client : Bytes
  pub login : Login auth selected server client
  pub spoke : Spoke s t server client

checked : Bytes → Io (Unit {0})
checked reply = guard (get_or reply 1 0 == 0x00) (io_err "SOCKS5: authentication failed")

send_credentials-LoggedIn :
    (creds : ProxyAuth) (s : Stream) {t : Stream}
    → send_credentials creds s ≡ (ok tt, t)
    → LoggedIn (some creds) 0x02 s t
unfolding send_credentials checked
send_credentials-LoggedIn creds s {t} h =
    let (fits, more) =
      guarded (leb (length creds.user) 255 && leb (length creds.pass) 255)
        (io_err "SOCKS5: username or password too long")
        (write_all (sub_negotiation creds) >> (read_exact 2 >>= checked)) s h in
    let (u, wrote, reply) = written (sub_negotiation creds) (read_exact 2 >>= checked) s more in
    let (answer, v, got, check) = bind-ok (read_exact 2) checked u reply in
    let (two, read) = read_exact-Spoke 2 u got in
    let (zero_code, same) =
      guard-ok (get_or answer 1 0 == 0x00) (io_err "SOCKS5: authentication failed") v check in
    let code = (==_iff (get_or answer 1 0) 0x00).0 zero_code in
    let whole : answer ≡ get_or answer 0 0 ∷ 0x00 ∷ [] = two_of answer two ∙ rw code refl in
    record {
      server = get_or answer 0 0 ∷ 0x00 ∷ [];
      client = sub_negotiation creds;
      login =
          Login.by_password creds (get_or answer 0 0) refl refl (ground (arith, fits))
            (ground (arith, fits));
      spoke =
          subst (λ x. Spoke s x (get_or answer 0 0 ∷ 0x00 ∷ []) (sub_negotiation creds)) (sym same)
            (subst (λ l. Spoke s v l (sub_negotiation creds)) whole
              (subst (λ l. Spoke s v answer l) (append-nil_right (sub_negotiation creds))
                (Spoke-then wrote read)));
    }

authenticate-LoggedIn :
    (auth : Option ProxyAuth) (s : Stream) {t : Stream}
    → authenticate auth s ≡ (ok tt, t)
    → LoggedIn auth 0x02 s t
unfolding authenticate
authenticate-LoggedIn none s h = cc
authenticate-LoggedIn (some creds) s h = send_credentials-LoggedIn creds s h

by_method : Option ProxyAuth → ℕ → Io (Unit {0})
by_method auth selected = if selected == 0x02 then authenticate auth else pure tt

by_method-LoggedIn :
    (auth : Option ProxyAuth) (selected : ℕ) (s : Stream) {t : Stream}
    → by_method auth selected s ≡ (ok tt, t)
    → LoggedIn auth selected s t
unfolding by_method
by_method-LoggedIn auth selected s {t} h = elim (Bool-cases (selected == 0x02)) [
  | inl password ↦
      subst (λ m. LoggedIn auth m s t) (sym ((==_iff selected 0x02).0 password))
        (authenticate-LoggedIn auth s (rw password at h))
  | inr other ↦
      let same : s ≡ t = cc (rw other at h) in
      record {
        server = [];
        client = [];
        login = Login.none_asked (λ e. cc ((==_iff selected 0x02).1 e, other));
        spoke = subst (λ x. Spoke s x [] []) same (Spoke-nothing s);
      }
]

-- A whole negotiation: the greeting, the method and its login, the request and the reply.
pub record Negotiated (host : Bytes) (port : ℕ) (auth : Option ProxyAuth) (s t : Stream)
    : Type 0 where
  pub selected : ℕ
  pub server : Bytes
  pub client : Bytes
  pub bound : Bound
  pub rsv : ℕ
  pub hi : ℕ
  pub lo : ℕ
  pub acceptable : selected ≢ 0xFF
  pub login : Login auth selected server client
  pub short : length host ≤ 255
  pub spoke :
      Spoke s t
        ((0x05 ∷ selected ∷ [])
          ++ (server ++ (0x05 ∷ 0x00 ∷ rsv ∷ bound_type bound ∷ bound_bytes bound hi lo)))
        (greeting auth ++ (client ++ connect_request host port))

chosen : Bytes → ℕ → Option ProxyAuth → Bytes → Io (Unit {0})
chosen host port auth reply =
    guard (get_or reply 0 0 == 0x05) (io_err "SOCKS5: invalid greeting reply version")
    >> (guard (not (get_or reply 1 0 == 0xFF))
          (io_err "SOCKS5: no acceptable authentication method")
        >> (by_method auth (get_or reply 1 0) >> connect host port))

-- A negotiation that succeeds has been one of the protocol: the client has sent its greeting, the
-- credentials if and only if the server has selected their method, and the request for just the
-- host and the port, and nothing else; and the server has answered with its method, the acceptance
-- of the credentials, and a reply of code 0 with a whole bound address. No byte behind that reply is
-- read.
pub tunnel_socks5-Negotiated :
    (host : Bytes) (port : ℕ) (auth : Option ProxyAuth) (s t : Stream)
    → tunnel_socks5 host port auth s ≡ (ok tt, t)
    → Negotiated host port auth s t
unfolding tunnel_socks5 chosen by_method
tunnel_socks5-Negotiated host port auth s t h =
    let (u, greeted, more) = written (greeting auth) (read_exact 2 >>= chosen host port auth) s h in
    let (reply, v, got, next) = bind-ok (read_exact 2) (chosen host port auth) u more in
    let (two, read) = read_exact-Spoke 2 u got in
    let selected = get_or reply 1 0 in
    let (version, next') =
      guarded (get_or reply 0 0 == 0x05) (io_err "SOCKS5: invalid greeting reply version")
        (guard (not (selected == 0xFF)) (io_err "SOCKS5: no acceptable authentication method")
          >> (by_method auth selected >> connect host port))
        v next in
    let (allowed, next'') =
      guarded (not (selected == 0xFF)) (io_err "SOCKS5: no acceptable authentication method")
        (by_method auth selected >> connect host port) v next' in
    let (x, w, logged, last) =
      bind-ok (by_method auth selected) (λ _. connect host port) v next'' in
    let l' = by_method-LoggedIn auth selected v logged in
    let c = connect-Connects host port w last in
    let five = (==_iff (get_or reply 0 0) 0x05).0 version in
    let head : reply ≡ 0x05 ∷ selected ∷ [] = two_of reply two ∙ rw five refl in
    record {
      selected = selected;
      server = l'.server;
      client = l'.client;
      bound = c.bound;
      rsv = c.rsv;
      hi = c.hi;
      lo = c.lo;
      acceptable = λ e. cc ((==_iff selected 0xFF).1 e, allowed);
      login = l'.login;
      short = c.short;
      spoke =
          subst
            (λ l.
              Spoke s t
                (l
                  ++ (l'.server
                      ++ (0x05
                          ∷ 0x00
                          ∷ c.rsv
                          ∷ bound_type c.bound
                          ∷ bound_bytes c.bound c.hi c.lo)))
                (greeting auth ++ (l'.client ++ connect_request host port)))
            head (Spoke-then greeted (Spoke-then read (Spoke-then l'.spoke c.spoke)));
    }
