-- ===== src/Udp/Handshake.antt =====
-- src/udp/handshake.rs: the shaping of handshake messages, and the responder's two steps. An error
-- of the Noise crate keeps the prefix that the code puts before it.
pub mod Exchange
pub mod Initiator
use vaiexia_obfs.Common.{
  Bool, false, not, ◌&&◌, Option, none, some, [], Result, ok, err, handshake_failed, text, ltb,
  length, take, if◌then◌else◌,
}
use vaiexia_obfs.External.{Bytes, External, DatagramMimicry}
use vaiexia_obfs.Udp.WireDgram.{DgramType, hs2, cookie, encode_inner, decode_inner}
use vaiexia_obfs.Udp.Msg1.{encode_cookie, decode_msg1_framed}
use vaiexia_obfs.Udp.Keys.{derive_record_keys}
use vaiexia_obfs.Udp.CookieGate.{LoadGate}
use vaiexia_obfs.Udp.Dataplane
use vaiexia_obfs.Udp.Dataplane.{DataChannel}

module _ ⦃X : External⦄ where
  open X use {
    Rng, Entropy, Addr, addr_text, Handshake, responder, write_message, read_message, remote_static,
    CookieSecret, make, verify, sealer_new, opener_new,
  }

  unfoldable pub shape_hs : DgramType → Bytes → DatagramMimicry Rng → Rng → Bytes × Rng
  shape_hs ty msg mimic rng = mimic.shape_out (encode_inner ty msg) rng

  decode_shaped : Option Bytes → Option (DgramType × Bytes)
  decode_shaped none = none
  decode_shaped (some inner) = decode_inner inner

  unfoldable pub unshape_hs : Bytes → DatagramMimicry Rng → Option (DgramType × Bytes)
  unfolding decode_shaped
  unshape_hs datagram mimic = decode_shaped (mimic.shape_in datagram)

  unfoldable pub src_bytes : Addr → Bytes
  src_bytes = addr_text

  pub data AcceptResult : Type 0 where
    cookie_reply : Bytes → AcceptResult
    partial_handshake : Handshake → Bytes → Addr → AcceptResult

  abbrev pub Accepted : Type 0
  Accepted = Result (Option AcceptResult) × Rng

  -- `supplied_cookie.map(verify).unwrap_or(false)`
  unfoldable pub cookie_ok : CookieSecret → Bytes → Option Bytes → Bool
  cookie_ok secret src none = false
  cookie_ok secret src (some c) = verify secret src c

  -- The Noise responder on message 1, as far as message 2.
  answer_msg2 : Addr → DatagramMimicry Rng → Rng → Option Bytes × Handshake → Accepted
  answer_msg2 client_addr mimic rng (none, hs) = (err (handshake_failed (text "write msg2: ")), rng)
  answer_msg2 client_addr mimic rng (some msg2, hs) =
      let (wire_msg2, rng') = shape_hs hs2 msg2 mimic rng in
      (ok (some (partial_handshake hs wire_msg2 client_addr)), rng')

  read_msg1 : Addr → DatagramMimicry Rng → Rng → Option Bytes × Handshake → Accepted
  unfolding answer_msg2
  read_msg1 client_addr mimic rng (none, hs) = (ok none, rng)
  read_msg1 client_addr mimic rng (some payload, hs) =
      answer_msg2 client_addr mimic rng (write_message hs [])

  run_responder : Bytes → Addr → DatagramMimicry Rng → Rng → Option Handshake → Accepted
  unfolding read_msg1
  run_responder msg1 client_addr mimic rng none = (err (handshake_failed (text "responder: ")), rng)
  run_responder msg1 client_addr mimic rng (some hs) =
      read_msg1 client_addr mimic rng (read_message hs msg1)

  challenge : Addr → CookieSecret → DatagramMimicry Rng → Rng → Accepted
  unfolding src_bytes
  challenge client_addr secret mimic rng =
      let (w, rng') =
        shape_hs cookie (encode_cookie (make secret (src_bytes client_addr))) mimic rng in
      (ok (some (cookie_reply w)), rng')

  process_decoded :
      Entropy
      → Addr
      → Bytes
      → CookieSecret
      → LoadGate
      → DatagramMimicry Rng
      → Rng
      → Option (Bytes × Option Bytes)
      → Accepted
  unfolding challenge run_responder cookie_ok src_bytes
  process_decoded entropy client_addr server_private secret load_gate mimic rng none =
      (ok none, rng)
  process_decoded entropy client_addr server_private secret load_gate mimic rng (some (msg1, c)) =
      if load_gate.under_load && not (cookie_ok secret (src_bytes client_addr) c)
      then challenge client_addr secret mimic rng
      else run_responder msg1 client_addr mimic rng (responder entropy server_private)

  unfoldable pub process_hs1 :
      Entropy
      → Bytes
      → Addr
      → Bytes
      → CookieSecret
      → LoadGate
      → DatagramMimicry Rng
      → Rng
      → Accepted
  unfolding process_decoded
  process_hs1 entropy body client_addr server_private secret load_gate mimic rng =
      process_decoded entropy client_addr server_private secret load_gate mimic rng
        (decode_msg1_framed body)

  -- The server seals with the key back and opens with the key from the client.
  unfoldable pub server_channel : DatagramMimicry Rng → Bytes → DataChannel
  unfolding derive_record_keys
  server_channel mimic seed =
      let (c2s_key, s2c_key) = derive_record_keys seed in
      Dataplane.new (sealer_new s2c_key) (opener_new c2s_key) mimic

  with_static : DatagramMimicry Rng → Bytes → Option Bytes → Result (DataChannel × Bytes)
  with_static mimic seed none = err (handshake_failed (text "no remote static after msg3"))
  with_static mimic seed (some client_static) = ok (server_channel mimic seed, client_static)

  finish_msg3 :
      DatagramMimicry Rng → Option Bytes × Handshake → Result (DataChannel × Bytes) × Handshake
  unfolding with_static
  finish_msg3 mimic (none, hs) = (err (handshake_failed (text "read msg3: ")), hs)
  finish_msg3 mimic (some payload, hs) = (
    if ltb (length payload) 32
        then err (handshake_failed (text "msg3 payload too short for seed"))
        else with_static mimic (take 32 payload) (remote_static hs),
    hs,
  )

  unfoldable pub complete_handshake_msg3 :
      Handshake → Bytes → DatagramMimicry Rng → Result (DataChannel × Bytes) × Handshake
  unfolding finish_msg3
  complete_handshake_msg3 hs msg3_body mimic = finish_msg3 mimic (read_message hs msg3_body)
