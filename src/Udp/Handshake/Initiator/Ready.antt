-- ===== src/Udp/Handshake/Initiator/Ready.antt =====
-- The channels that the two ends derive from one seed fit each other.
use vaiexia_obfs.Common.{◌≡◌, List, some, map, ok}
use vaiexia_obfs.Envelope.{Envelope}
use vaiexia_obfs.External.{Bytes, External, DatagramMimicry, Unshapes}
use vaiexia_obfs.Udp.Dataplane.{DataChannel}
use vaiexia_obfs.Udp.Dataplane
use vaiexia_obfs.Udp.Dataplane.RoundTrip.{IsRecordLayer, seal_all, open_all, open_all-seal_all}
use vaiexia_obfs.Udp.Handshake.{server_channel}
use vaiexia_obfs.Udp.Handshake.Initiator.{client_channel}

module _ ⦃X : External⦄ where
  open X use {protocol, Rng, RecordKey, Sealer, Opener, sealer_new, opener_new}

  -- The two ends of a handshake that share its seed understand each other in both directions: the
  -- client's envelopes are opened by the server, and the server's by the client, in order and each
  -- once. A new sealer and a new opener of one key are in step, and the profiles fit.
  pub client_channel-server_channel :
      {InStep : Sealer → Opener → Type 0} (layer : IsRecordLayer InStep)
      (fresh : (k : RecordKey) → InStep (sealer_new k) (opener_new k))
      (client server : DatagramMimicry Rng) (seed : Bytes) (rng rng' : Rng)
      (requests replies : List (Envelope protocol)) (up back : List Bytes)
      → Unshapes client server
      → Unshapes server client
      → seal_all (client_channel client seed) rng requests ≡ ok up
      → seal_all (server_channel server seed) rng' replies ≡ ok back
      → (open_all (server_channel server seed) up ≡ map some requests)
        × (open_all (client_channel client seed) back ≡ map some replies)
  unfolding client_channel server_channel Dataplane.new
  client_channel-server_channel layer fresh client server seed rng rng' requests replies up back
        to_server to_client sent answered =
      (
        open_all-seal_all layer (client_channel client seed) (server_channel server seed) rng
            requests up to_server (fresh _) sent,
        open_all-seal_all layer (server_channel server seed) (client_channel client seed) rng'
            replies back to_client (fresh _) answered,
      )
