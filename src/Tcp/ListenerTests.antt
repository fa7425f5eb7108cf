-- ===== src/Tcp/ListenerTests.antt =====
-- A listener with one connection, which takes a round.
use vaiexia_obfs.Common.{true, [], ◌∷◌}
use vaiexia_obfs.Samples.{sample, framed}
use vaiexia_obfs.Verifier.{allow_all}
use vaiexia_obfs.Tcp.Server.Listener.{
  Config, Listener, accepted, accept_round, connection_round, Step, Trace,
}
use vaiexia_obfs.Tcp.Server.Listener.Granted.{Granted}
use vaiexia_obfs.Tcp.Tests.{quick}

abbrev sample_config : Config
sample_config = record { server_private = 77 ∷ []; gate = allow_all; profile = framed }

abbrev bound : Listener
bound = record {
  config = sample_config;
  local_addr = 30;
  is_listening = true;
  service = 0;
  connections = [];
}

abbrev arrived : Listener
arrived = accept_round (accepted 0 0 3 quick) bound

abbrev rounded_once : Listener
rounded_once = connection_round 0 arrived

abbrev run : Trace bound rounded_once
run =
    Trace.then (Trace.then Trace.here (Step.arrives (accepted 0 0 3 quick) bound))
      (Step.rounds 0 arrived)
