-- ===== src/Noise/Handshake.antt =====
-- `accept` of agent/src/noise.rs. The responder of snow, serde and base64 are parameters.
pub mod Silence
use ipgate.Base.{
  ℕ, Bool, true, false, Option, none, some, List, [], ◌∷◌, if◌then◌else◌, Text, Result, ok, err,
  Exec, pure, raise, gets, lift, continue, ◌>>=◌, ◌>>◌,
}
use ipgate.Proto.Ports.{is_nil}
use ipgate.Proto.Rpc.{HandshakeHello, HandshakeAck}
use ipgate.Noise.{
  Bytes, NoiseError, decrypt, encrypt, refused, no_remote_static, bad_hello, bad_ack, Stream,
  read_frame, write_frame, NoiseConn,
}

-- `HandshakeState` of snow with states in H, which becomes a transport with states in T.
pub record Responder (H T : Type 0) : Type 0 where
  pub start : Result Text H
  pub read_message : Bytes → Exec H Text Bytes
  pub write_message : Bytes → Exec H Text Bytes
  pub get_remote_static : H → Option Bytes
  pub into_transport_mode : H → Result Text T

pub record Codec : Type 0 where
  pub encode_key : Bytes → Text
  pub parse_hello : Bytes → Option HandshakeHello
  pub ack_bytes : HandshakeAck → Option Bytes

pub record Accepting (H W : Type 0) : Type 0 where
  pub stream : Stream
  pub handshake : H
  pub world : W

abbrev pub no_hello : HandshakeHello
no_hello = record { pairing_code = none; device_name = none }

-- `context` on an option and `map_err`.
abbrev pub or_fail : {A : Type 0} → NoiseError → Option A → Result NoiseError A
or_fail e none = err e
or_fail e (some a) = ok a

abbrev pub fail_with : {A : Type 0} → (Text → NoiseError) → Result Text A → Result NoiseError A
fail_with f (ok a) = ok a
fail_with f (err e) = err (f e)

-- An empty payload is the default hello.
unfoldable pub read_hello : Codec → Bytes → Result NoiseError HandshakeHello
unfolding is_nil
read_hello codec payload =
    if is_nil payload then ok no_hello else or_fail bad_hello (codec.parse_hello payload)

module _ {H T W : Type 0} (snow : Responder H T) (codec : Codec)
    (authorize : Text → HandshakeHello → Exec W Text HandshakeAck) where
  abbrev pub on_stream : {A : Type 0} → Exec Stream NoiseError A → Exec (Accepting H W) NoiseError A
  on_stream m c = let (r, s) = m c.stream in (r, record c { stream = s })

  abbrev pub on_handshake :
      {A : Type 0} → (Text → NoiseError) → Exec H Text A → Exec (Accepting H W) NoiseError A
  on_handshake f m c = let (r, h) = m c.handshake in (fail_with f r, record c { handshake = h })

  abbrev pub on_world : {A : Type 0} → Exec W Text A → Exec (Accepting H W) NoiseError A
  on_world m c = let (r, w) = m c.world in (fail_with refused r, record c { world = w })

  -- From the first message of the client to the key and the hello in it.
  unfoldable pub read_first : Exec (Accepting H W) NoiseError (Text × HandshakeHello)
  read_first = do
    frame ← on_stream read_frame
    payload ← on_handshake decrypt (snow.read_message frame)
    h ← gets (λ c. c.handshake)
    remote ← lift (or_fail no_remote_static (snow.get_remote_static h))
    hello ← lift (read_hello codec payload)
    pure (codec.encode_key remote, hello)

  -- The second message, with the answer.
  unfoldable pub answer : Text → HandshakeAck → Exec (Accepting H W) NoiseError (T × Text)
  answer peer ack = do
    bytes ← lift (or_fail bad_ack (codec.ack_bytes ack))
    frame ← on_handshake encrypt (snow.write_message bytes)
    on_stream (write_frame frame)
    h ← gets (λ c. c.handshake)
    t ← lift (fail_with encrypt (snow.into_transport_mode h))
    pure (t, peer)

  unfoldable pub accept : Exec (Accepting H W) NoiseError (T × Text)
  accept = do (peer, hello) ← read_first; ack ← on_world (authorize peer hello); answer peer ack
