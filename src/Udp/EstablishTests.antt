-- ===== src/Udp/EstablishTests.antt =====
-- A whole handshake on concrete inputs; the first datagram is lost.
use vaiexia_obfs.Common.{
  ℕ, refl, none, some, List, [], ◌∷◌, ◌++◌, arith, replicate, codes, Result, ok,
}
use vaiexia_obfs.External.{Bytes}
use vaiexia_obfs.Samples.{sample, passthrough, checksum}
use vaiexia_obfs.Verifier.{allow_all}
use vaiexia_obfs.Udp.WireDgram.{encode_inner}
use vaiexia_obfs.Udp.Dataplane
use vaiexia_obfs.Udp.Dataplane.{DataChannel, seal_envelope}
use vaiexia_obfs.Udp.Handshake.{server_channel, shape_hs}
use vaiexia_obfs.Udp.Handshake.Initiator.{Socket, Inbound}
use vaiexia_obfs.Udp.Msg1.{encode_msg1_framed}
use vaiexia_obfs.Udp.Client.Connect.{Target, connect_udp}
use vaiexia_obfs.Udp.Server.Dgram.{handle_dgram}
use vaiexia_obfs.Udp.Server.Runs.{fresh}
use vaiexia_obfs.Udp.Establish.{NoiseRun}
use vaiexia_obfs.Udp.Establish.Complete.{Established, handshake_completes}
use vaiexia_obfs.Udp.Tests.{
  InStepOf, sample_layer, passthrough-Unshapes, sample_config, at_time, start,
}

abbrev seed : Bytes
seed = replicate 32 0

abbrev noise : NoiseRun 0 0 (50 ∷ []) (77 ∷ []) (77 ∷ []) seed
noise = record {
  m1 = 50 ∷ [];
  m2 = 77 ∷ [];
  m3 = 50 ∷ seed;
  p1 = [];
  p2 = [];
  i0 = (50 ∷ [], some (77 ∷ []));
  i1 = (50 ∷ [], some (77 ∷ []));
  i2 = (50 ∷ [], some (77 ∷ []));
  i3 = (50 ∷ [], some (77 ∷ []));
  r0 = (77 ∷ [], none);
  r1 = (77 ∷ [], some (50 ∷ []));
  r2 = (77 ∷ [], some (50 ∷ []));
  r3 = (77 ∷ [], some (50 ∷ []));
  client_static = 50 ∷ [];
  begins = refl;
  answers = refl;
  wrote1 = refl;
  read1 = refl;
  wrote2 = refl;
  read2 = refl;
  wrote3 = refl;
  read3 = refl;
  known = refl;
  short = omega arith;
}

abbrev back_key : ℕ
back_key = checksum (seed ++ codes "vaiexia-udp-s2c")

abbrev up_key : ℕ
up_key = checksum (seed ++ codes "vaiexia-udp-c2s")

abbrev ready : Bytes
ready = 5 ∷ 0 ∷ back_key ∷ 8 ∷ []

abbrev ready_channel : DataChannel
ready_channel = record { sealer = (back_key, 1); opener = (up_key, 0); mimic = passthrough }

abbrev first_socket : Socket
first_socket = record {
  inbox = Inbound.quiet ∷ Inbound.datagram 9 (2 ∷ 77 ∷ []) ∷ Inbound.datagram 9 ready ∷ [];
  room = 40;
  sent = [];
}

abbrev target : Target
target = record {
  addr = codes "server:9";
  server_pub = 77 ∷ [];
  client_private = 50 ∷ [];
  profile = passthrough;
  capability = none;
}

abbrev lookup : Bytes → Result (List ℕ)
lookup name = ok (9 ∷ [])

handshake_completes_example :
    Established InStepOf
      (connect_udp lookup (ok first_socket) (λ i. i) 0 3 target)
      first_socket
      9
      ((9, 1 ∷ 0 ∷ 1 ∷ 50 ∷ []) ∷ [])
      (1 ∷ 0 ∷ 1 ∷ 50 ∷ [])
      (3 ∷ 50 ∷ seed)
      (2 ∷ 77 ∷ [])
      ready
      20
      8
      start
      (handle_dgram sample_config (at_time 10) 8 (1 ∷ 0 ∷ 1 ∷ 50 ∷ []) start)
      (handle_dgram sample_config
        (at_time 20)
        8
        (3 ∷ 50 ∷ seed)
        (handle_dgram sample_config (at_time 10) 8 (1 ∷ 0 ∷ 1 ∷ 50 ∷ []) start))
unfolding fresh server_channel seal_envelope Dataplane.new encode_inner shape_hs allow_all
    encode_msg1_framed
handshake_completes_example =
    handshake_completes sample_layer (λ k. (refl, refl)) lookup (λ i. i) target 9 [] first_socket 0
      1 3 0 sample_config (at_time 10) (at_time 20) 8 start seed ready ready_channel [] 37 1 10
      noise (omega arith) refl passthrough-Unshapes passthrough-Unshapes refl refl
      (record { open_gate = refl; calm = omega arith; room = omega arith }) refl refl refl refl
