-- ===== src/Client/Calls.antt =====
-- src/client.rs and src/udp/client.rs: the map of pending requests, which both clients have. An
-- entry holds the sender of a oneshot channel; here the channels are numbered. The receiver of a
-- channel gets the response that its sender sends, or an error when the sender is dropped.
pub mod Accounts
use vaiexia_obfs.Common.Map
use vaiexia_obfs.Common.Map.{Map}
use vaiexia_obfs.Common.{ℕ, ◌+◌, Option, none, some, List, [], ◌∷◌, ◌++◌}
use vaiexia_obfs.External.{External}

module _ ⦃X : External⦄ where
  open X use {protocol}

  pub record Calls : Type 0 where
    pub pending : Map protocol.RequestId ℕ
    -- The channels made, numbered from 0.
    pub made : ℕ
    pub delivered : List (ℕ × protocol.Response)
    pub dropped : List ℕ

  unfoldable pub no_calls : Calls
  no_calls = record { pending = []; made = 0; delivered = []; dropped = [] }

  abbrev pub dropping : Option ℕ → Calls → Calls
  dropping none c = c
  dropping (some tx) c = record c { dropped = tx ∷ c.dropped }

  -- A new channel, whose sender goes under the id; a sender that was there is dropped.
  unfoldable pub register : protocol.RequestId → Calls → Calls
  register id c =
      let c' = dropping (Map.get ⦃e = protocol.id_key⦄ c.pending id) c in
      record c' {
        pending = Map.insert ⦃e = protocol.id_key⦄ c.pending id c.made;
        made = c.made + 1;
      }

  -- `remove(&id)`, and the drop of the sender that it gives.
  unfoldable pub forget : protocol.RequestId → Calls → Calls
  forget id c =
      let c' = dropping (Map.get ⦃e = protocol.id_key⦄ c.pending id) c in
      record c' { pending = Map.remove ⦃e = protocol.id_key⦄ c.pending id }

  delivering : Option ℕ → protocol.Response → Calls → Calls
  delivering none resp c = c
  delivering (some tx) resp c = record c {
    pending = Map.remove ⦃e = protocol.id_key⦄ c.pending (protocol.response_id resp);
    delivered = (tx, resp) ∷ c.delivered;
  }

  -- A response goes to the channel under its id; one with no entry is dropped.
  unfoldable pub resolve : protocol.Response → Calls → Calls
  unfolding delivering
  resolve resp c =
      delivering (Map.get ⦃e = protocol.id_key⦄ c.pending (protocol.response_id resp)) resp c

  abbrev pub senders : Map protocol.RequestId ℕ → List ℕ
  senders [] = []
  senders ((id, tx) ∷ m) = tx ∷ senders m

  -- The end of a pump: every pending sender is dropped.
  unfoldable pub drain : Calls → Calls
  drain c = record c { pending = []; dropped = senders c.pending ++ c.dropped }
