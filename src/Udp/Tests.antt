-- ===== src/Udp/Tests.antt =====
-- The datagram substrate on concrete inputs.
use vaiexia_obfs.Common.{
  ℕ, ◌+◌, ◌≤◌, ◌≡◌, ◌≢◌, refl, ◌↔◌, true, none, some, List, [], ◌∷◌, ok, arith, length, replicate,
  map, nat_key,
}
use Prim.Native.Nat.{max}
use vaiexia_obfs.Common.Map
use vaiexia_obfs.Udp.WireDgram.{from_byte, cookie, data_record, encode_inner, decode_inner}
use vaiexia_obfs.Udp.CookieGate.{always_under_load, always_open}
use vaiexia_obfs.Udp.Msg1.{
  trailing_cookie, encode_cookie, decode_cookie, encode_msg1_framed, decode_msg1_framed,
}
use vaiexia_obfs.Udp.Handshake.{process_hs1, cookie_reply, unshape_hs, src_bytes, server_channel}
use vaiexia_obfs.Udp.Handshake.Exchange.{cookie_exchange}
use vaiexia_obfs.Udp.Handshake.Initiator.{
  Peer, Socket, Inbound, client_udp_handshake, client_channel,
}
use vaiexia_obfs.Udp.Handshake.Initiator.Bounds.{client_udp_handshake-sends}
use vaiexia_obfs.Udp.Handshake.Initiator.Ready.{client_channel-server_channel}
use vaiexia_obfs.Tcp.Client.{connected}
use vaiexia_obfs.Udp.Client.{Client, Wait, failed, request_response}
use vaiexia_obfs.Udp.Client.Requests.{
  unanswered, request_response-unanswered, request_response-stale,
}
use vaiexia_obfs.Udp.Server.Cookies.{IsSpoofed, flood_bounded}
use vaiexia_obfs.Udp.Server.Replies.{SentOne, handle_dgram-SentOne}
use vaiexia_obfs.Udp.Server.Sessions.{
  Earned, handle_dgram-Earned, SessionIsEarned, sessions_authenticated,
}
use vaiexia_obfs.Envelope.{Envelope, request, ping}
use vaiexia_obfs.External.{Bytes, Unshapes}
use vaiexia_obfs.Samples.{
  sample, sample_protocol, to_json, of_json, passthrough, seal_record, open_record,
}
use vaiexia_obfs.Verifier.{allow_all}
use vaiexia_obfs.Udp.WireDgram.RoundTrip.{decode_inner_exact}
use vaiexia_obfs.Udp.Msg1.RoundTrip.{decode_msg1_framed-encode_msg1_framed}
use vaiexia_obfs.Udp.Dataplane
use vaiexia_obfs.Udp.Dataplane.{DataChannel, seal_envelope}
use vaiexia_obfs.Udp.Dataplane.RoundTrip.{IsRecordLayer, open_all, open_all-seal_all}
use vaiexia_obfs.Udp.Server.State.{Server, Config, Receipt}
use vaiexia_obfs.Udp.Server.Dgram.{handle_dgram}
use vaiexia_obfs.Udp.Server.Runs.{fresh, Reach, Step, receive_all}
use vaiexia_obfs.Udp.Server.Links.Isolation.{Undisturbed}
use vaiexia_obfs.Udp.Server.Links.Others.{WasIdle, receive_all-Undisturbed}
use vaiexia_obfs.Udp.Server.Bounds.{IsBounded, Reach-IsBounded}

decode_inner_exact_example :
    (decode_inner (5 ∷ 9 ∷ []) ≡ some (data_record, 9 ∷ []))
    ↔ (5 ∷ 9 ∷ [] ≡ encode_inner data_record (9 ∷ []))
decode_inner_exact_example = decode_inner_exact (5 ∷ 9 ∷ []) data_record (9 ∷ [])

abbrev sample_cookie : Bytes
sample_cookie = replicate 16 7

msg1_round_trip_example :
    decode_msg1_framed (encode_msg1_framed (1 ∷ 2 ∷ []) (some sample_cookie))
    ≡ some (1 ∷ 2 ∷ [], some sample_cookie)
msg1_round_trip_example =
    decode_msg1_framed-encode_msg1_framed (1 ∷ 2 ∷ []) (some sample_cookie) (omega arith) refl

abbrev pub InStepOf : ℕ × ℕ → ℕ × ℕ → Type 0
InStepOf s o = (s.0 ≡ o.0) × (s.1 ≡ o.1)

unseal-seal_sample :
    (s o : ℕ × ℕ) (plain sealed : Bytes)
    → InStepOf s o
    → (seal_record s plain).0 ≡ some sealed
    → ((open_record o sealed).0 ≡ some plain)
      × InStepOf (seal_record s plain).1 (open_record o sealed).1
unseal-seal_sample (k, n) (j, m) plain sealed step h = ground arith

of_json-to_json :
    (env : Envelope sample_protocol) (json : Bytes)
    → to_json env ≡ some json
    → of_json json ≡ some env
of_json-to_json env json h = ground arith

pub sample_layer : IsRecordLayer InStepOf
sample_layer = record { unseal-seal = unseal-seal_sample; from_slice-to_vec = of_json-to_json }

abbrev sample_channel : DataChannel
sample_channel = record { sealer = (4, 0); opener = (4, 0); mimic = passthrough }

pub passthrough-Unshapes : Unshapes passthrough passthrough
passthrough-Unshapes = record { shape_in-shape_out = λ inner r. refl }

abbrev two_sealed : List Bytes
two_sealed = (5 ∷ 0 ∷ 4 ∷ 7 ∷ []) ∷ (5 ∷ 1 ∷ 4 ∷ 1 ∷ 3 ∷ []) ∷ []

open_all-seal_all_example : open_all sample_channel two_sealed ≡ some ping ∷ some (request 3) ∷ []
unfolding seal_envelope encode_inner
open_all-seal_all_example =
    open_all-seal_all sample_layer sample_channel sample_channel 0 (ping ∷ request 3 ∷ [])
      two_sealed passthrough-Unshapes (refl, refl) refl

-- A handshake of the address 9, then a ping of it.

abbrev pub sample_config : Config
sample_config = record { server_priv = 77 ∷ []; gate = allow_all; profile = passthrough }

abbrev pub at_time : ℕ → Receipt
at_time t = record { now = t; load = always_open; entropy = 0 }

abbrev pub start : Server
start = fresh (1, 0) 0 0

abbrev after_hs1 : Server
after_hs1 = handle_dgram sample_config (at_time 10) 9 (1 ∷ 0 ∷ 1 ∷ 50 ∷ []) start

abbrev pub after_hs3 : Server
after_hs3 = handle_dgram sample_config (at_time 20) 9 (3 ∷ 50 ∷ replicate 32 1) after_hs1

abbrev pub run : Reach sample_config start after_hs3
run =
    Reach.then (Reach.then Reach.here (Step.receive (at_time 10) 9 (1 ∷ 0 ∷ 1 ∷ 50 ∷ []) start))
      (Step.receive (at_time 20) 9 (3 ∷ 50 ∷ replicate 32 1) after_hs1)

Reach-IsBounded_example : IsBounded after_hs3
Reach-IsBounded_example = Reach-IsBounded sample_config (1, 0) 0 0 run

nine_ne_eight : ◌≢◌ {A = ℕ} 9 8
nine_ne_eight e = omega arith

nine_ne_seven : ◌≢◌ {A = ℕ} 9 7
nine_ne_seven e = omega arith

-- A first message, and a record of an address that has no session.
abbrev from_others : List (Receipt × ℕ × Bytes)
from_others = (at_time 30, 8, 1 ∷ 0 ∷ 1 ∷ 51 ∷ []) ∷ (at_time 31, 7, 4 ∷ 5 ∷ 6 ∷ []) ∷ []

receive_all-Undisturbed_example :
    Undisturbed
      (WasIdle (record { link = 0; last_seen = 20 }) from_others)
      after_hs3
      (receive_all sample_config from_others after_hs3)
      (record { link = 0; last_seen = 20 })
      9
unfolding Map.get handle_dgram decode_inner vaiexia_obfs.Udp.Server.Hs3.handle_hs3
    vaiexia_obfs.Udp.Server.Hs1.handle_hs1 fresh process_hs1 decode_msg1_framed
    vaiexia_obfs.Udp.Server.Dgram.clean_up Map.retain Map.insert
    vaiexia_obfs.Udp.Handshake.complete_handshake_msg3 allow_all
    vaiexia_obfs.Udp.Server.State.send_sealed seal_envelope
receive_all-Undisturbed_example =
    receive_all-Undisturbed sample_config (1, 0) 0 0 from_others run 9
      (record { link = 0; last_seen = 20 }) refl (nine_ne_eight, (nine_ne_seven, tt))

abbrev two_hellos : List (Receipt × ℕ × Bytes)
two_hellos = (at_time 10, 9, 1 ∷ 0 ∷ 1 ∷ 50 ∷ []) ∷ (at_time 11, 8, 1 ∷ 0 ∷ 1 ∷ 51 ∷ []) ∷ []

hello-IsSpoofed :
    (secret : ℕ × ℕ) (src k : ℕ) → IsSpoofed sample_config secret src (1 ∷ 0 ∷ 1 ∷ k ∷ [])
unfolding decode_inner from_byte decode_msg1_framed trailing_cookie
hello-IsSpoofed secret src k body held m c e =
    let h = held.shaped in let d = held.decoded in ground (arith, h, d)

flood_bounded_example : length (receive_all sample_config two_hellos start).pending ≤ max 256 0
unfolding fresh
flood_bounded_example =
    flood_bounded sample_config two_hellos start
      (hello-IsSpoofed (1, 0) 9 50, (hello-IsSpoofed (1, 0) 8 51, tt))

handle_dgram-SentOne_example :
    SentOne 9 after_hs1
      (handle_dgram sample_config (at_time 20) 9 (3 ∷ 50 ∷ replicate 32 1) after_hs1)
handle_dgram-SentOne_example =
    handle_dgram-SentOne sample_config (at_time 20) 9 (3 ∷ 50 ∷ replicate 32 1) after_hs1

handle_dgram-Earned_example :
    Earned sample_config 9
      (3 ∷ 50 ∷ replicate 32 1)
      start
      9
      (handle_dgram sample_config (at_time 20) 9 (3 ∷ 50 ∷ replicate 32 1) start)
unfolding fresh Map.get
handle_dgram-Earned_example =
    handle_dgram-Earned sample_config (at_time 20) 9 (3 ∷ 50 ∷ replicate 32 1) start 9 refl

sessions_authenticated_example : SessionIsEarned 9 run
sessions_authenticated_example = sessions_authenticated sample_config (1, 0) 0 0 9 run

cookie_exchange_example :
    (w k : Bytes) × ((process_hs1 4
        (encode_msg1_framed (50 ∷ []) none)
        9
        (77 ∷ [])
        (1, 0)
        always_under_load
        passthrough
        0).0
      ≡ ok (some (cookie_reply w)))
    × (unshape_hs w passthrough ≡ some (cookie, encode_cookie k))
    × (decode_cookie (encode_cookie k) ≡ some k)
    × (process_hs1 4
          (encode_msg1_framed (50 ∷ []) (some k))
          9
          (77 ∷ [])
          (2, 1)
          always_under_load
          passthrough
          0
        ≡ process_hs1 4
            (encode_msg1_framed (50 ∷ []) none)
            9
            (77 ∷ [])
            (2, 1)
            always_open
            passthrough
            0)
unfolding src_bytes
cookie_exchange_example =
    cookie_exchange 4 (50 ∷ []) 9 (77 ∷ []) (1, 0) (2, 1) passthrough passthrough 0 0 (omega arith)
      passthrough-Unshapes refl refl

-- The client.

abbrev pub sample_peer : Peer
sample_peer = record {
  server_addr = 9;
  server_pub = 77 ∷ [];
  client_private = 50 ∷ [];
  mimic = passthrough;
}

abbrev sample_socket : Socket
sample_socket = record {
  inbox = Inbound.quiet ∷ Inbound.datagram 9 (2 ∷ 77 ∷ []) ∷ [];
  room = 40;
  sent = [];
}

client_udp_handshake-sends_example :
    length (client_udp_handshake (λ i. i) sample_peer (sample_socket, 0)).1.0.sent ≤ 0 + 48
client_udp_handshake-sends_example =
    client_udp_handshake-sends (λ i. i) sample_peer (sample_socket, 0)

client_channel-server_channel_example :
    (open_all (server_channel passthrough (1 ∷ [])) ((5 ∷ 0 ∷ 2099699185 ∷ 7 ∷ []) ∷ [])
      ≡ some ping ∷ [])
    × (open_all (client_channel passthrough (1 ∷ [])) [] ≡ [])
unfolding client_channel server_channel seal_envelope Dataplane.new encode_inner
client_channel-server_channel_example =
    client_channel-server_channel sample_layer (λ k. (refl, refl)) passthrough passthrough (1 ∷ [])
      0 0 (ping ∷ []) [] ((5 ∷ 0 ∷ 2099699185 ∷ 7 ∷ []) ∷ []) [] passthrough-Unshapes
      passthrough-Unshapes refl refl

abbrev sample_client : Client
sample_client = record {
  server_addr = 9;
  channel = sample_channel;
  rng = 0;
  queue = [];
  is_open = true;
  is_looping = true;
  calls = record { pending = []; made = 0; delivered = []; dropped = [] };
  events = [];
  state = connected;
  capability = none;
  sent = [];
}

abbrev silent : ℕ → Wait
silent retry = unanswered failed

-- The records of the tries: their numbers follow each other.
abbrev eleven_sealed : List Bytes
eleven_sealed = map (λ n. 5 ∷ n ∷ 4 ∷ 1 ∷ 3 ∷ []) (0 ∷ 1 ∷ 2 ∷ 3 ∷ 4 ∷ 5 ∷ 6 ∷ 7 ∷ 8 ∷ 9 ∷ 10 ∷ [])

request_response-stale_example :
    Map.get ⦃e = nat_key⦄ (request_response silent 3 sample_client).1.calls.pending 3 ≡ none
unfolding Map.get seal_envelope encode_inner
request_response-stale_example =
    request_response-stale silent 3 sample_client refl
      (request_response-unanswered (λ retry. failed) 3 sample_client eleven_sealed refl refl refl
        refl refl).0
