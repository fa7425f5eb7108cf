-- ===== src/Envelope.antt =====
-- src/envelope.rs: the multiplexing envelope, over the types of vaiexia-core.
use vaiexia_obfs.Common.{Option}
use vaiexia_obfs.Protocol.{Protocol}

pub data Envelope (P : Protocol) : Type 0 where
  request : P.Request → Envelope P
  response : P.Response → Envelope P
  event : P.Event → Envelope P
  subscribe : P.Topic → Option P.Value → Option P.Capability → Envelope P
  unsubscribe : P.Topic → Envelope P
  subscribe_error : P.Topic → P.Diagnostic → Envelope P
  ping : Envelope P
  pong : Envelope P
