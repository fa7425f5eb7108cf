-- ===== src/Udp/Server/Serve.antt =====
-- src/udp/server.rs: `serve_obfs_udp`, the loops that it spawns, and the handle that stops them. The
-- send loop gives each datagram of its channel to the socket and drops an error; the datagrams that it
-- sends stand in the server's `sent`, with those of the handler.
use vaiexia_obfs.Common.{ℕ, Bool, true, false, [], Result, ok, err, take, if◌then◌else◌}
use vaiexia_obfs.External.{Bytes, External}
use vaiexia_obfs.Udp.Server.State.{Server, Config, Receipt}
use vaiexia_obfs.Udp.Server.Dgram.{handle_dgram}
use vaiexia_obfs.Udp.Server.Tasks.{drain, publish, rotate_cookie}
use vaiexia_obfs.Udp.Server.Runs.{fresh}

abbrev pub max_dgram : ℕ
max_dgram = 65507

module _ ⦃X : External⦄ where
  open X use {protocol, Rng, fill_bytes, Addr, CookieSecret, cookie_new, Service}

  -- The server with its two tasks, whether the handle has aborted them, and the rotation's generator.
  -- The first tick of its timer completes at once, and is skipped.
  pub record Serving : Type 0 where
    pub config : Config
    pub local_addr : Addr
    pub server : Server
    pub receiving : Bool
    pub rotating : Bool
    pub recv_aborted : Bool
    pub rotate_aborted : Bool
    pub has_ticked : Bool
    pub rotate_rng : Rng

  -- What `recv_from` gives.
  pub data Inbound : Type 0 where
    datagram : Bytes → Addr → Inbound
    failed : Inbound

  -- The end of the receiving loop drops what it owns, the half-open handshakes and the sessions. The
  -- links are the sealer tasks', which go on while a subscription forwards events to them.
  unfoldable pub recv_ended : Serving → Serving
  recv_ended v = record v {
    receiving = false;
    server = record v.server { pending = []; peers = [] };
  }

  -- The buffer has MAX_DGRAM bytes; what a datagram has behind them is cut off.
  unfoldable pub received : Receipt → Inbound → Serving → Serving
  unfolding recv_ended
  received r failed v = recv_ended v
  received r (datagram bytes src) v = record v {
    server = handle_dgram v.config r src (take max_dgram bytes) v.server;
  }

  unfoldable pub recv_round : Receipt → Inbound → Serving → Serving
  unfolding received
  recv_round r inbound v = if v.receiving then received r inbound v else v

  unfoldable pub ticked : Serving → Serving
  ticked v =
      if v.has_ticked
      then record v {
        server = rotate_cookie (fill_bytes 32 v.rotate_rng).0 v.server;
        rotate_rng = (fill_bytes 32 v.rotate_rng).1;
      }
      else record v { has_ticked = true }

  -- `spawn_cookie_rotation`: one tick of its timer.
  unfoldable pub rotate_round : Serving → Serving
  unfolding ticked
  rotate_round v = if v.rotating then ticked v else v

  -- `UdpServeHandle::shutdown`. An abort is a request: a task ends by it when it yields next, and a
  -- datagram or a tick that is being handled may still be finished. A task that yields inside the
  -- handling of a datagram is taken to be cancelled behind it. The same at the drop of the handle.
  unfoldable pub shutdown : Serving → Serving
  shutdown v = record v { recv_aborted = true; rotate_aborted = true }

  -- A task that has been aborted yields, and is cancelled there.
  unfoldable pub recv_yields : Serving → Serving
  unfolding recv_ended
  recv_yields v = if v.recv_aborted then recv_ended v else v

  unfoldable pub rotate_yields : Serving → Serving
  rotate_yields v = if v.rotate_aborted then record v { rotating = false } else v

  unfoldable pub drop_handle : Serving → Serving
  unfolding shutdown
  drop_handle v = shutdown v

  unfoldable pub started : Config → Service → Rng → Rng → Rng → Addr → Serving
  started config service seed_rng rng rotate_rng local_addr = record {
    config = config;
    local_addr = local_addr;
    server = fresh (cookie_new (fill_bytes 32 seed_rng).0) service rng;
    receiving = true;
    rotating = true;
    recv_aborted = false;
    rotate_aborted = false;
    has_ticked = false;
    rotate_rng = rotate_rng;
  }

  -- The keys, the gate and the profile are the configuration's. `bound` is what binding the socket and
  -- asking for its address gives; the generators are those of the cookie seed, of the receiving loop and of the rotation.
  unfoldable pub serve_obfs_udp : Result Addr → Config → Service → Rng → Rng → Rng → Result Serving
  unfolding started
  serve_obfs_udp (err e) config service seed_rng rng rotate_rng = err e
  serve_obfs_udp (ok local_addr) config service seed_rng rng rotate_rng =
      ok (started config service seed_rng rng rotate_rng local_addr)

  -- What happens to a server that runs: a round of one of its loops, a round of a session's sealer
  -- task, an event of the service, the two ends of the handle, and the end of a task by its abort.
  pub data Event : Serving → Serving → Type 0 where
    receives : (r : Receipt) (inbound : Inbound) (v : Serving) → Event v (recv_round r inbound v)
    ticks : (v : Serving) → Event v (rotate_round v)
    seals :
        (local_rng : Rng) (i : ℕ) (v : Serving)
        → Event v (record v { server = drain local_rng i v.server })
    emits :
        (ev : protocol.Event) (v : Serving) → Event v (record v { server = publish ev v.server })
    shuts_down : (v : Serving) → Event v (shutdown v)
    recv_is_cancelled : (v : Serving) → Event v (recv_yields v)
    rotate_is_cancelled : (v : Serving) → Event v (rotate_yields v)
    drops : (v : Serving) → Event v (drop_handle v)
