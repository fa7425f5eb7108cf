-- ===== src/Protocol.antt =====
-- The types of the crate vaiexia-core that the envelopes carry. Their code is not in this
-- repository, so they are parameters: a record of types with the few projections that the program
-- uses of them.
use vaiexia_obfs.Common.{Key}

pub record Protocol : Type 1 where
  pub Request : Type 0
  pub Response : Type 0
  pub Event : Type 0
  pub Topic : Type 0
  pub Value : Type 0
  pub Capability : Type 0
  pub Diagnostic : Type 0
  -- `RequestId::as_str` of a request and of a response, and `==` on these texts.
  pub RequestId : Type 0
  pub id_key : Key RequestId
  pub request_id : Request → RequestId
  pub response_id : Response → RequestId
  -- `Event::topic`, and `==` on topics.
  pub event_topic : Event → Topic
  pub topic_key : Key Topic
  -- `Diagnostic::error(codes::FORBIDDEN, "subscription denied")` and
  -- `Diagnostic::error(codes::METHOD_NOT_FOUND, "no event source for topic")`.
  pub subscription_denied : Diagnostic
  pub no_event_source : Diagnostic
