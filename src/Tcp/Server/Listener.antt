-- ===== src/Tcp/Server/Listener.antt =====
-- src/server.rs: `serve_obfs`, its accept loop, and the handle that stops it. The connections share
-- the service; a connection that has ended leaves its place empty.
pub mod Entitled
pub mod Granted
use vaiexia_obfs.Common.{
  ℕ, Bool, true, false, Option, none, some, List, [], ◌∷◌, ◌++◌, Result, ok, err, set, get_elem?,
  map, if◌then◌else◌,
}
use vaiexia_obfs.External.{Bytes, External, MimicryProfile}
use vaiexia_obfs.Verifier.{TransportGate}
use vaiexia_obfs.Stream.{Stream}
use vaiexia_obfs.Tcp.Server.{Serving, Round, go_on, break, round, publish, handle_connection}

module _ ⦃X : External⦄ where
  open X use {protocol, Rng, Entropy, Addr, Service}

  -- What each connection gets a clone of.
  pub record Config : Type 0 where
    pub server_private : Bytes
    pub gate : TransportGate
    pub profile : MimicryProfile Rng

  pub record Listener : Type 0 where
    pub config : Config
    pub local_addr : Addr
    pub is_listening : Bool
    pub service : Service
    pub connections : List (Option Serving)

  -- What the loop's select gives: an accepted stream, with the draws of its task; an error; or the end
  -- of the handle, which holds the sender of `stop_rx`.
  pub data Arrival : Type 0 where
    accepted : Entropy → Rng → Rng → Stream → Arrival
    accept_failed : Arrival
    handle_dropped : Arrival

  unfoldable pub on_arrival : Arrival → Listener → Listener
  on_arrival (accepted entropy rng rng' stream) l = record l {
    connections =
        l.connections
        ++ handle_connection entropy rng rng' l.config.server_private l.service l.config.gate
            l.config.profile stream
          ∷ [];
  }
  on_arrival accept_failed l = record l { is_listening = false }
  on_arrival handle_dropped l = record l { is_listening = false }

  unfoldable pub accept_round : Arrival → Listener → Listener
  unfolding on_arrival
  accept_round arrival l = if l.is_listening then on_arrival arrival l else l

  -- The end of a connection's round; the service is the shared one.
  unfoldable pub rounded : ℕ → Round → Listener → Listener
  rounded i (go_on s) l = record l {
    service = s.service;
    connections = set l.connections i (some s);
  }
  rounded i (break s) l = record l { service = s.service; connections = set l.connections i none }

  unfoldable pub round_of : ℕ → Option (Option Serving) → Listener → Listener
  unfolding rounded
  round_of i (some (some s)) l =
      rounded i (round l.config.profile (record s { service = l.service })) l
  round_of i _ l = l

  -- One round of the pump of the connection `i`.
  unfoldable pub connection_round : ℕ → Listener → Listener
  unfolding round_of
  connection_round i l = round_of i (get_elem? l.connections i) l

  unfoldable pub publish_all : protocol.Event → List (Option Serving) → List (Option Serving)
  publish_all ev [] = []
  publish_all ev (none ∷ cs) = none ∷ publish_all ev cs
  publish_all ev (some s ∷ cs) = some (publish ev s) ∷ publish_all ev cs

  -- `bound` is what binding and asking for the address gives.
  unfoldable pub serve_obfs : Result Addr → Config → Service → Result Listener
  serve_obfs (err e) config service = err e
  serve_obfs (ok local_addr) config service = ok (record {
    config = config;
    local_addr = local_addr;
    is_listening = true;
    service = service;
    connections = [];
  })

  pub data Step : Listener → Listener → Type 0 where
    arrives : (arrival : Arrival) (l : Listener) → Step l (accept_round arrival l)
    rounds : (i : ℕ) (l : Listener) → Step l (connection_round i l)
    emits :
        (ev : protocol.Event) (l : Listener)
        → Step l (record l { connections = publish_all ev l.connections })

  pub data Trace (l : Listener) : Listener → Type 0 where
    here : Trace l l
    then : {m n : Listener} → Trace l m → Step m n → Trace l n
