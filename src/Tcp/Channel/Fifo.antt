-- ===== src/Tcp/Channel/Fifo.antt =====
-- What the queues of a connection mean for the envelopes sent and received.
use vaiexia_obfs.Common.{
  ◌≡◌, refl, sym, ◌∙◌, ap, List, [], ◌∷◌, ◌++◌, ok, append_assoc, append-nil_right,
}
use vaiexia_obfs.Envelope.{Envelope}
use vaiexia_obfs.External.{External}
use vaiexia_obfs.Tcp.Channel.{
  Link, Action, sends, receives, Side, at_near, at_far, Run, Queues, QueueAct, QueueStep, QueueRun,
}
use vaiexia_obfs.Tcp.Channel.Sent.{IsSession}
use vaiexia_obfs.Tcp.Channel.Refinement.{Refines, Run-Refines}

module _ ⦃X : External⦄ where
  open X use {protocol, Session}

  abbrev pub sent_in : Action → List (Envelope protocol)
  sent_in (sends env) = env ∷ []
  sent_in (receives x) = []

  abbrev pub got_in : Action → List (Envelope protocol)
  got_in (receives (ok env)) = env ∷ []
  got_in _ = []

  -- The envelopes that the near end sends in a trace, and those that the far end receives.
  abbrev pub sent_near : List (Side × Action) → List (Envelope protocol)
  sent_near [] = []
  sent_near ((at_near, a) ∷ trace) = sent_in a ++ sent_near trace
  sent_near ((at_far, a) ∷ trace) = sent_near trace

  abbrev pub got_far : List (Side × Action) → List (Envelope protocol)
  got_far [] = []
  got_far ((at_near, a) ∷ trace) = got_far trace
  got_far ((at_far, a) ∷ trace) = got_in a ++ got_far trace

  record Moved (q : Queues) (a : Action) (r : Queues) : Type 0 where
    pub put : r.out ≡ q.out ++ sent_in a
    pub got : q.back ≡ got_in a ++ r.back

  act-Moved : {q r : Queues} {a : Action} → QueueAct q a r → Moved q a r
  act-Moved (QueueAct.put env q) = record { put = refl; got = refl }
  act-Moved (QueueAct.get env out rest) = record { put = sym (append-nil_right out); got = refl }

  run_fifo :
      {q s : Queues} {trace : List (Side × Action)}
      → QueueRun q trace s
      → q.out ++ sent_near trace ≡ got_far trace ++ s.out
  run_fifo QueueRun.done = append-nil_right _
  run_fifo {q} {s} (QueueRun.step {r = r} {more = more} (QueueStep.near {a = a} act) rest) =
      sym (append_assoc q.out (sent_in a) (sent_near more))
      ∙ ap (λ l. l ++ sent_near more) (sym (act-Moved act).put)
      ∙ run_fifo rest
  run_fifo {q} {s} (QueueRun.step {more = more} (QueueStep.far {r = r} {a = a} act) rest) =
      ap (λ l. l ++ sent_near more) (act-Moved act).got
      ∙ append_assoc (got_in a) r.back (sent_near more)
      ∙ ap (λ l. got_in a ++ l) (run_fifo rest)
      ∙ sym (append_assoc (got_in a) (got_far more) s.out)

  module _ {InStep : Session → Session → Type 0} (session : IsSession InStep) where
    -- From ends with nothing on its way, whose profiles fit and whose sessions are in step: in every run
    -- the envelopes that one end has received are the first of those that the other has sent, in
    -- order, each once.
    pub received_in_order :
        {l m : Link} {trace : List (Side × Action)}
        → Run l trace m
        → Refines InStep l (record { out = []; back = [] })
        → (waiting : List (Envelope protocol)) × (sent_near trace ≡ got_far trace ++ waiting)
    received_in_order run h =
        let (r, queues, after) = Run-Refines session run (record { out = []; back = [] }) h in
        (r.out, run_fifo queues)
