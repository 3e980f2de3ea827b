-- ===== src/Tests/Noise.antt =====
-- The theorems on the Noise transport over a toy cipher that puts sixteen zeros before a chunk.
use ipgate.Base.{
  ◌≡◌, refl, arith, none, some, [], ◌∷◌, ◌++◌, length, drop, ◌≤◌, ◌⊎◌, Text, lit, ok, err, Exec,
  Returns,
}
use ipgate.Proto.Rpc.{HandshakeHello, HandshakeAck}
use ipgate.Noise.{Bytes, Transport, NoiseConn, send, recv, recv_loop, noise_max_msg}
use ipgate.Noise.Ending.{HasEnded, length-recv}
use ipgate.Noise.Turns.{recv-HasEnded}
use ipgate.Noise.RoundTrip.{IsPaired, conn, recv-send}
use ipgate.Noise.Handshake.{Responder, Codec, Accepting, accept, no_hello}
use ipgate.Noise.Handshake.Silence.{IsAuthorized, accept-silent}

abbrev tag : Bytes
tag = 0 ∷ 0 ∷ 0 ∷ 0 ∷ 0 ∷ 0 ∷ 0 ∷ 0 ∷ 0 ∷ 0 ∷ 0 ∷ 0 ∷ 0 ∷ 0 ∷ 0 ∷ 0 ∷ []

abbrev One : Type 0
One = Unit {0}

abbrev toy : Transport One
toy = record {
  read_message = λ frame t. (ok (drop 16 frame), t);
  write_message = λ chunk t. (ok (tag ++ chunk), t);
}

abbrev Together : One → One → Type 0
Together a b = Unit

toy-IsPaired : IsPaired toy Together
toy-IsPaired = record {
  sealed = λ a b chunk p fits. (tag ++ chunk, a, b, refl, refl, omega arith, tt);
}

abbrev ping : Bytes
ping = lit "ping"

ping_short : length ping ≤ noise_max_msg
unfolding lit
ping_short = omega arith

recv-send_example :
    (bytes : Bytes) × (a' : One) × (b' : One) × (send toy ping
        (conn toy Together toy-IsPaired [] [] tt [])
      ≡ (ok tt, conn toy Together toy-IsPaired [] ([] ++ bytes) a' []))
    × (recv toy (conn toy Together toy-IsPaired (bytes ++ (7 ∷ [])) [] tt [])
        ≡ (ok ping, conn toy Together toy-IsPaired (7 ∷ []) [] b' []))
    × Together a' b'
recv-send_example =
    recv-send toy Together toy-IsPaired ping tt tt [] [] (7 ∷ []) [] [] [] ping_short tt

-- A stream with the frame of one message, and one with a frame that holds no plain text.
abbrev pinged : NoiseConn One
pinged = record {
  stream = record {
    input = 0 ∷ 24 ∷ [] ++ tag ++ (0 ∷ 0 ∷ 0 ∷ 4 ∷ []) ++ ping ++ (7 ∷ []);
    output = [];
  };
  transport = tt;
  peer = [];
}

abbrev emptied : NoiseConn One
emptied = record pinged { stream = record { input = 0 ∷ 16 ∷ [] ++ tag ++ tag; output = [] } }

recv-HasEnded_example :
    HasEnded (recv_loop toy 1048580 [] none emptied)
    × (recv toy emptied ≡ recv_loop toy 1048580 [] none emptied)
recv-HasEnded_example = recv-HasEnded toy emptied 1048580 (omega arith)

abbrev after_ping : NoiseConn One
after_ping = record pinged { stream = record { input = 7 ∷ []; output = [] } }

received_ping : recv toy pinged ≡ (ok ping, after_ping)
unfolding recv lit recv_loop ipgate.Noise.recv_plaintext ipgate.Noise.read_frame
    ipgate.Noise.read_exact ipgate.Base.ℕ_discrete ipgate.Noise.decrypt_frame
    ipgate.Proto.Ports.is_nil ipgate.Noise.received
received_ping = refl

length-recv_example : length ping ≤ noise_max_msg
length-recv_example = length-recv toy pinged after_ping ping received_ping

abbrev responder : Responder One One
responder = record {
  start = ok tt;
  read_message = λ frame t. (ok frame, t);
  write_message = λ bytes t. (ok (tag ++ bytes), t);
  get_remote_static = λ t. some (9 ∷ []);
  into_transport_mode = λ t. ok t;
}

abbrev codec : Codec
codec = record {
  encode_key = λ b. b;
  parse_hello = λ b. some no_hello;
  ack_bytes = λ a. some (1 ∷ []);
}

-- Nobody is let in.
abbrev closed : Text → HandshakeHello → Exec One Text HandshakeAck
closed peer hello w = (err (lit "no"), w)

abbrev knocking : Accepting One One
knocking = record {
  stream = record { input = 0 ∷ 1 ∷ 5 ∷ []; output = [] };
  handshake = tt;
  world = tt;
}

accept-silent_example :
    ((accept responder codec closed knocking).1.stream.output ≡ [])
    ⊎ IsAuthorized responder codec closed knocking
accept-silent_example = accept-silent responder codec closed knocking
