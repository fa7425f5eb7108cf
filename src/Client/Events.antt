-- ===== src/Client/Events.antt =====
-- src/client.rs and src/udp/client.rs: the event stream that `subscribe` gives.
use vaiexia_obfs.Common.{ℕ, List, [], ◌∷◌}
use vaiexia_obfs.External.{External}

module _ ⦃X : External⦄ where
  open X use {protocol}

  -- What `rx.recv()` gives, one call after the other: an event, how many events the receiver has
  -- missed, or the end of the channel.
  pub data Received : Type 0 where
    received : protocol.Event → Received
    lagged : ℕ → Received
    channel_closed : Received

  -- What the stream yields; `disconnected` is the error `CoreError::Disconnected`.
  pub data Item : Type 0 where
    item : protocol.Event → Item
    disconnected : Item

  -- The stream of the `stream!` block. A list that ends without a closed channel is a stream that
  -- waits for more.
  unfoldable pub raw : List Received → List Item
  raw [] = []
  raw (received ev ∷ rs) = item ev ∷ raw rs
  raw (lagged n ∷ rs) = raw rs
  raw (channel_closed ∷ rs) = disconnected ∷ []

  -- `dedup_by_seq` is vaiexia-core's.
  unfoldable pub event_stream :
      (List Item → protocol.Topic → List Item) → protocol.Topic → List Received → List Item
  event_stream dedup_by_seq topic rs = dedup_by_seq (raw rs) topic
