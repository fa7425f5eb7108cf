-- ===== src/Udp/Handshake/Exchange.antt =====
-- The cookie exchange, and the keys on which the two sides agree.
use vaiexia_obfs.Common.{◌<◌, ◌≡◌, true, none, some, ok, length}
use vaiexia_obfs.External.{Bytes, External, DatagramMimicry, Unshapes}
use vaiexia_obfs.Udp.WireDgram.{cookie, encode_inner}
use vaiexia_obfs.Udp.WireDgram.RoundTrip.{decode_inner-encode_inner}
use vaiexia_obfs.Udp.Msg1.{encode_cookie, decode_cookie, encode_msg1_framed}
use vaiexia_obfs.Udp.Msg1.RoundTrip.{
  decode_msg1_framed-encode_msg1_framed, decode_cookie-encode_cookie,
}
use vaiexia_obfs.Udp.CookieGate.{always_open, always_under_load}
use vaiexia_obfs.Udp.Handshake.{cookie_reply, process_hs1, unshape_hs, src_bytes, shape_hs}

module _ ⦃X : External⦄ where
  open X use {Rng, Entropy, Addr, CookieSecret, make, verify}

  -- Under load, a client that follows the protocol is served. Its first message without a cookie is
  -- answered by a challenge, which the client reads as a cookie; with that cookie behind it the same
  -- message is answered as it would be with no load. The secret may have changed in between, as long
  -- as the cookie still verifies; the profiles fit, and cookies have 16 bytes.
  pub cookie_exchange :
      (entropy : Entropy) (m : Bytes) (src : Addr) (server_priv : Bytes)
      (secret later : CookieSecret) (profile client : DatagramMimicry Rng) (rng rng' : Rng)
      → length m < 65536
      → Unshapes profile client
      → length (make secret (src_bytes src)) ≡ 16
      → verify later (src_bytes src) (make secret (src_bytes src)) ≡ true
      → (w k : Bytes) × ((process_hs1 entropy
            (encode_msg1_framed m none)
            src
            server_priv
            secret
            always_under_load
            profile
            rng).0
          ≡ ok (some (cookie_reply w)))
        × (unshape_hs w client ≡ some (cookie, encode_cookie k))
        × (decode_cookie (encode_cookie k) ≡ some k)
        × (process_hs1 entropy
              (encode_msg1_framed m (some k))
              src
              server_priv
              later
              always_under_load
              profile
              rng'
            ≡ process_hs1 entropy
                (encode_msg1_framed m none)
                src
                server_priv
                later
                always_open
                profile
                rng')
  unfolding process_hs1 unshape_hs shape_hs
  cookie_exchange entropy m src server_priv secret later profile client rng rng' fits un size good =
      let k = make secret (src_bytes src) in
      (
        (profile.shape_out (encode_inner cookie (encode_cookie k)) rng).0,
        k,
        rw (decode_msg1_framed-encode_msg1_framed m none fits tt),
        rw (
          un.shape_in-shape_out (encode_inner cookie (encode_cookie k)) rng,
          decode_inner-encode_inner,
        ),
        decode_cookie-encode_cookie k size,
        rw (
          decode_msg1_framed-encode_msg1_framed m (some k) fits size,
          decode_msg1_framed-encode_msg1_framed m none fits tt,
          good,
        ),
      )
