-- ===== src/Udp/ServeTests.antt =====
-- A server that is started, gets a message 1, and is dropped.
use vaiexia_obfs.Common.{ℕ, ◌≡◌, refl, [], ◌∷◌, ◌++◌, codes, replicate, length, false}
use vaiexia_obfs.External.{Bytes}
use vaiexia_obfs.Samples.{sample, checksum}
use vaiexia_obfs.Udp.Server.State.{Server}
use vaiexia_obfs.Udp.Server.Runs.{fresh, Reach, Step}
use vaiexia_obfs.Udp.Server.Serve.{
  Serving, Inbound, serve_obfs_udp, started, recv_round, drop_handle, recv_yields,
}
use vaiexia_obfs.Common.Map
use vaiexia_obfs.Udp.Handshake.{process_hs1}
use vaiexia_obfs.Udp.Msg1.{decode_msg1_framed}
use vaiexia_obfs.Udp.WireDgram.{decode_inner}
use vaiexia_obfs.Udp.Server.Dgram.{handle_dgram, clean_up}
use vaiexia_obfs.Udp.Server.Links.Granted.{HasSubscribed, Reach-AllGranted}
use vaiexia_obfs.Udp.Server.Links.Allowed.{AreAllowed}
use vaiexia_obfs.Udp.Tests.{sample_config, at_time, start, after_hs3, run}

abbrev up_key : ℕ
up_key = checksum (replicate 32 1 ++ codes "vaiexia-udp-c2s")

abbrev hello : Bytes
hello = 1 ∷ 0 ∷ 1 ∷ 50 ∷ []

bound : Serving
unfolding serve_obfs_udp started
bound = started sample_config 0 0 6 7 30

abbrev greeted : Serving
greeted = recv_round (at_time 10) (Inbound.datagram hello 9) bound

-- A datagram that is being handled as the handle is dropped is finished; then the loop is cancelled.
abbrev stopping : Serving
stopping = recv_round (at_time 20) (Inbound.datagram (1 ∷ 0 ∷ 1 ∷ 51 ∷ []) 8) (drop_handle greeted)

stopping-pending : length stopping.server.pending ≡ 2
unfolding recv_round drop_handle handle_dgram bound serve_obfs_udp started fresh decode_inner
    vaiexia_obfs.Udp.Server.Hs1.handle_hs1 process_hs1 decode_msg1_framed clean_up Map.insert
    Map.retain
stopping-pending = refl

cancelled-receiving : (recv_yields stopping).receiving ≡ false
unfolding recv_yields recv_round drop_handle bound
cancelled-receiving = refl

-- A session that has subscribed to a topic with a capability.
abbrev subscribed : Server
subscribed = handle_dgram sample_config (at_time 30) 9 (5 ∷ 0 ∷ up_key ∷ 5 ∷ 4 ∷ 9 ∷ []) after_hs3

abbrev subscribing : Reach sample_config start subscribed
subscribing =
    Reach.then run (Step.receive (at_time 30) 9 (5 ∷ 0 ∷ up_key ∷ 5 ∷ 4 ∷ 9 ∷ []) after_hs3)

Reach-AllGranted_example : AreAllowed (HasSubscribed subscribing) subscribed.links
Reach-AllGranted_example = Reach-AllGranted sample_config (1, 0) 0 0 subscribing
