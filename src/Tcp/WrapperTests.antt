-- ===== src/Tcp/WrapperTests.antt =====
-- The wrapper `read_frame` on a stream with a request and two bytes behind it.
use vaiexia_obfs.Common.{refl, [], ◌∷◌, arith}
use vaiexia_obfs.Envelope.{request}
use vaiexia_obfs.External.{Bytes}
use vaiexia_obfs.Samples.{sample, framed}
use vaiexia_obfs.Tcp.Framing.Wrappers.Lost.{IsLost, at_once, read_frame-IsLost}
use vaiexia_obfs.Tcp.Tests.{quick, framed-IsFraming}

abbrev whole : Bytes
whole = 3 ∷ 0 ∷ 1 ∷ 4 ∷ 5 ∷ 6 ∷ []

read_frame-IsLost_example : IsLost framed (request 4) (5 ∷ 6 ∷ []) 0 (at_once whole quick) (0, 0)
read_frame-IsLost_example =
    read_frame-IsLost framed-IsFraming (request 4) (1 ∷ 4 ∷ []) (0 ∷ 1 ∷ 4 ∷ [])
      (3 ∷ 0 ∷ 1 ∷ 4 ∷ []) (5 ∷ 6 ∷ []) 0 0 quick (0, 0) refl (λ e. cc) (omega arith) refl refl
