-- ===== src/Samples.antt =====
-- A small concrete instance of what is outside the repository, for tests and witnesses: the theorems
-- hold of every instance, and this one shows that their hypotheses can be met.
use vaiexia_obfs.Common.{
  ℕ, ◌+◌, ◌*◌, nat_key, true, ◌&&◌, ◌||◌, Option, none, some, [], ◌∷◌, ◌++◌, String, ◌==◌, leb,
  length, take, drop, replicate, if◌then◌else◌,
}
use vaiexia_obfs.Protocol.{Protocol}
use vaiexia_obfs.Envelope.{Envelope, request, response, event, subscribe, unsubscribe, ping, pong}
use vaiexia_obfs.External.{
  Bytes, External, DatagramMimicry, MimicryProfile, FrameInResult, found, need_more, Verdict,
}
use vaiexia_obfs.Verifier.{bytes_eq}

abbrev pub sample_protocol : Protocol
sample_protocol = record {
  Request = ℕ;
  Response = ℕ;
  Event = ℕ;
  Topic = ℕ;
  Value = ℕ;
  Capability = ℕ;
  Diagnostic = String;
  RequestId = ℕ;
  id_key = nat_key;
  request_id = λ n. n;
  response_id = λ n. n;
  event_topic = λ t. t;
  topic_key = nat_key;
  subscription_denied = "denied";
  no_event_source = "no source";
}

abbrev pub to_json : Envelope sample_protocol → Option Bytes
to_json (request n) = some (1 ∷ n ∷ [])
to_json (response n) = some (2 ∷ n ∷ [])
to_json (event n) = some (3 ∷ n ∷ [])
to_json (subscribe t none none) = some (4 ∷ t ∷ [])
to_json (subscribe t none (some c)) = some (5 ∷ t ∷ c ∷ [])
to_json (unsubscribe t) = some (6 ∷ t ∷ [])
to_json ping = some (7 ∷ [])
to_json pong = some (8 ∷ [])
to_json _ = none

abbrev pub of_json : Bytes → Option (Envelope sample_protocol)
of_json (k ∷ []) = if k == 7 then some ping else if k == 8 then some pong else none
of_json (k ∷ n ∷ []) =
    if k == 1
    then some (request n)
    else if k == 2
    then some (response n)
    else if k == 3
    then some (event n)
    else if k == 4
    then some (subscribe n none none)
    else if k == 6
    then some (unsubscribe n)
    else none
of_json (k ∷ t ∷ c ∷ []) = if k == 5 then some (subscribe t none (some c)) else none
of_json _ = none

abbrev pub checksum : Bytes → ℕ
checksum [] = 0
checksum (b ∷ bs) = b + 3 * checksum bs

-- A record is a counter, the key and the plaintext.
abbrev pub seal_record : ℕ × ℕ → Bytes → Option Bytes × (ℕ × ℕ)
seal_record (k, n) plain = (some (n ∷ k ∷ plain), (k, n + 1))

abbrev pub open_record : ℕ × ℕ → Bytes → Option Bytes × (ℕ × ℕ)
open_record (k, n) (m ∷ j ∷ plain) =
    if m == n && j == k then (some plain, (k, n + 1)) else (none, (k, n))
open_record (k, n) _ = (none, (k, n))

-- A session has a counter for each direction; a message is the counter and the plaintext.
abbrev pub decrypt_record : ℕ × ℕ → Bytes → Option Bytes × (ℕ × ℕ)
decrypt_record s [] = (none, s)
decrypt_record s (m ∷ plain) = if m == s.1 then (some plain, (s.0, s.1 + 1)) else (none, s)

-- A handshake message is the sender's key and the payload.
abbrev read_hs : Bytes × Option Bytes → Bytes → Option Bytes × (Bytes × Option Bytes)
read_hs (own, known) [] = (none, (own, known))
read_hs (own, known) (k ∷ payload) = (some payload, (own, some (k ∷ [])))

abbrev write_hs : Bytes × Option Bytes → Bytes → Option Bytes × (Bytes × Option Bytes)
write_hs ([], known) payload = (none, ([], known))
write_hs (k ∷ own, known) payload = (some (k ∷ payload), (k ∷ own, known))

abbrev cookie_of : ℕ → Bytes → Bytes
cookie_of c src = c ∷ replicate 15 (checksum src)

abbrev permits : Option ℕ → Verdict sample_protocol
permits none = Verdict.other
permits (some c) = Verdict.granted

instance abbrev pub sample : External
sample = record {
  protocol = sample_protocol;
  to_vec = to_json;
  from_slice = of_json;
  Rng = ℕ;
  fill_bytes = λ n r. (replicate n r, r + 1);
  Entropy = ℕ;
  Addr = ℕ;
  addr_key = nat_key;
  addr_text = λ a. a ∷ [];
  RecordKey = ℕ;
  Sealer = ℕ × ℕ;
  Opener = ℕ × ℕ;
  record_key = checksum;
  sealer_new = λ k. (k, 0);
  opener_new = λ k. (k, 0);
  seal = seal_record;
  unseal = open_record;
  blake2s_mac = λ key label. key ++ label;
  Handshake = Bytes × Option Bytes;
  initiator = λ e own remote. some (own, some remote);
  responder = λ e own. some (own, none);
  write_message = write_hs;
  read_message = read_hs;
  remote_static = λ h. h.1;
  Session = ℕ × ℕ;
  into_session = λ h. some (0, 0);
  encrypt = λ s plain. (some (s.0 ∷ plain), (s.0 + 1, s.1));
  decrypt = λ s sealed. decrypt_record s sealed;
  CookieSecret = ℕ × ℕ;
  cookie_new = λ seed. (checksum seed, 0);
  make = λ secret src. cookie_of secret.0 src;
  verify =
      λ secret src c. bytes_eq c (cookie_of secret.0 src) || bytes_eq c (cookie_of secret.1 src);
  rotate = λ secret seed. (checksum seed, secret.0);
  Service = ℕ;
  handle = λ s req. (req, s + 1);
  verify_topic = λ s c t. permits c;
  event_source = λ s t. true;
}

-- A profile that shapes nothing.
abbrev pub passthrough : DatagramMimicry ℕ
passthrough = record { shape_out = λ inner r. (inner, r); shape_in = λ d. some d }

-- A framing: the length of the payload before it, behind a preamble of two bytes.
abbrev frame_of : Bytes → FrameInResult × Bytes
frame_of [] = (need_more, [])
frame_of (n ∷ rest) =
    if leb n (length rest) then (found (take n rest), drop n rest) else (need_more, n ∷ rest)

abbrev pub framed : MimicryProfile ℕ
framed = record {
  frame_out = λ payload r. (some (length payload ∷ payload), r);
  frame_in = frame_of;
  preamble = λ r. (8 ∷ 8 ∷ [], r);
  preamble_skip = 2;
  jitter = λ r. (0, r + 1);
}
