-- ===== src/Noise.antt =====
-- agent/src/noise.rs: the frames of the Noise transport, and the answer to a handshake. The crate
-- snow is a parameter, as are serde and base64; a stream is the bytes that are still to be read and
-- the bytes written so far.
pub mod Frames
pub mod Chunks
pub mod RoundTrip
pub mod Ending
pub mod Turns
pub mod Handshake
use ipgate.Base.{
  ℕ, zero, suc, ◌+◌, ◌*◌, ◌/◌, ◌%◌, ◌^◌, ◌==◌, nat_eq, Bool, true, false, Option, none, some, List,
  [], ◌∷◌, ◌++◌, length, take, drop, leb, ltb, if◌then◌else◌, Text, Result, ok, err, Exec, pure,
  raise, modify, gets, lift, continue, ◌>>=◌, ◌>>◌,
}
use ipgate.Proto.Ports.{is_nil}
use ipgate.Proto.Rpc.{HandshakeHello, HandshakeAck, noise_max_frame}

abbrev pub Bytes : Type 0
Bytes = List ℕ

abbrev pub noise_max_msg : ℕ
noise_max_msg = 1048576

-- Why a connection ends; `stalled` is for the loop without fuel.
pub data NoiseError : Type 0 where
  no_length no_body empty_frame empty_plaintext no_remote_static bad_hello bad_ack stalled :
      NoiseError
  decrypt encrypt refused : Text → NoiseError
  too_large : ℕ → NoiseError

pub record Stream : Type 0 where
  pub input : Bytes
  pub output : Bytes

-- `u16::to_be_bytes` and `u32::to_be_bytes`, of a number that is cast to the width first.
abbrev pub be_bytes2 : ℕ → Bytes
be_bytes2 n = n / 256 % 256 ∷ n % 256 ∷ []

abbrev pub be_bytes4 : ℕ → Bytes
be_bytes4 n = n / 16777216 % 256 ∷ n / 65536 % 256 ∷ n / 256 % 256 ∷ n % 256 ∷ []

abbrev pub from_be_bytes2 : ℕ → ℕ → ℕ
from_be_bytes2 a b = a * 256 + b

abbrev pub from_be_bytes4 : ℕ → ℕ → ℕ → ℕ → ℕ
from_be_bytes4 a b c d = ((a * 256 + b) * 256 + c) * 256 + d

-- `read_exact`: it fails when the stream ends before.
unfoldable pub read_exact : NoiseError → ℕ → Exec Stream NoiseError Bytes
read_exact e n s =
    if leb n (length s.input)
    then (ok (take n s.input), record s { input = drop n s.input })
    else (err e, record s { input = [] })

abbrev pub frame_length : Bytes → ℕ
frame_length (a ∷ b ∷ []) = from_be_bytes2 a b
frame_length _ = 0

unfoldable pub read_frame : Exec Stream NoiseError Bytes
read_frame = do
  len ← read_exact no_length 2
  if frame_length len == 0 then raise empty_frame else read_exact no_body (frame_length len)

unfoldable pub write_all : Bytes → Exec Stream NoiseError (Unit {0})
write_all bytes s = (ok tt, record s { output = s.output ++ bytes })

unfoldable pub write_frame : Bytes → Exec Stream NoiseError (Unit {0})
write_frame bytes = do write_all (be_bytes2 (length bytes)); write_all bytes

-- `TransportState` of snow: both operations move its nonces.
pub record Transport (T : Type 0) : Type 0 where
  pub read_message : Bytes → Exec T Text Bytes
  pub write_message : Bytes → Exec T Text Bytes

pub record NoiseConn (T : Type 0) : Type 0 where
  pub stream : Stream
  pub transport : T
  pub peer : Text

-- `chunks`: the last one may be shorter. Every step drops a byte, so the length is enough.
unfoldable pub chunks_from : ℕ → ℕ → Bytes → List Bytes
chunks_from zero n xs = []
chunks_from (suc fuel) n [] = []
chunks_from (suc fuel) n (x ∷ xs) = take n (x ∷ xs) ∷ chunks_from fuel n (drop n (x ∷ xs))

unfoldable pub chunks : ℕ → Bytes → List Bytes
unfolding chunks_from
chunks n xs = chunks_from (length xs) n xs

-- What the loop of `recv` does with a frame: it waits for the length, ends, or goes on.
pub data Step : Type 0 where
  more : Bytes → Option ℕ → Step
  done : Bytes → Step
  oversized : ℕ → Step

abbrev pub with_total : Bytes → ℕ → Step
with_total out total =
    if leb total (length out) then done (take total out) else more out (some total)

unfoldable pub received : Bytes → Option ℕ → Step
received out (some total) = with_total out total
received (a ∷ b ∷ c ∷ d ∷ out) none =
    let len = from_be_bytes4 a b c d in
    if ltb noise_max_msg len then oversized len else with_total out len
received out none = more out none

module _ {T : Type 0} (snow : Transport T) where
  abbrev pub on_stream : {A : Type 0} → Exec Stream NoiseError A → Exec (NoiseConn T) NoiseError A
  on_stream m c = let (r, s) = m c.stream in (r, record c { stream = s })

  abbrev pub opened : Result Text Bytes → Result NoiseError Bytes
  opened (ok b) = ok b
  opened (err e) = err (decrypt e)

  abbrev pub sealed : Result Text Bytes → Result NoiseError Bytes
  sealed (ok b) = ok b
  sealed (err e) = err (encrypt e)

  unfoldable pub decrypt_frame : Bytes → Exec (NoiseConn T) NoiseError Bytes
  decrypt_frame frame c =
      let (r, t) = snow.read_message frame c.transport in (opened r, record c { transport = t })

  unfoldable pub encrypt_chunk : Bytes → Exec (NoiseConn T) NoiseError Bytes
  encrypt_chunk chunk c =
      let (r, t) = snow.write_message chunk c.transport in (sealed r, record c { transport = t })

  -- One frame, decrypted; a frame without plain text is refused.
  unfoldable pub recv_plaintext : Exec (NoiseConn T) NoiseError Bytes
  recv_plaintext = do
    frame ← on_stream read_frame
    buf ← decrypt_frame frame
    if is_nil buf then raise empty_plaintext else pure buf

  -- The end of one turn; `again` is the next turn.
  abbrev pub follow :
      (Bytes → Option ℕ → Exec (NoiseConn T) NoiseError Bytes)
      → Step
      → Exec (NoiseConn T) NoiseError Bytes
  follow again (done msg) = pure msg
  follow again (oversized len) = raise (too_large len)
  follow again (more out total) = again out total

  unfoldable pub recv_loop : ℕ → Bytes → Option ℕ → Exec (NoiseConn T) NoiseError Bytes
  recv_loop zero out total = raise stalled
  recv_loop (suc fuel) out total = do
    buf ← recv_plaintext
    follow (recv_loop fuel) (received (out ++ buf) total)

  -- Every frame takes bytes of the input, so one turn more than it has bytes is enough.
  unfoldable pub recv : Exec (NoiseConn T) NoiseError Bytes
  recv c = recv_loop (suc (length c.stream.input)) [] none c

  unfoldable pub send_chunks : List Bytes → Exec (NoiseConn T) NoiseError (Unit {0})
  send_chunks [] = pure tt
  send_chunks (chunk ∷ rest) = do
    frame ← encrypt_chunk chunk
    on_stream (write_frame frame)
    send_chunks rest

  unfoldable pub send : Bytes → Exec (NoiseConn T) NoiseError (Unit {0})
  send plaintext = send_chunks (chunks noise_max_frame (be_bytes4 (length plaintext) ++ plaintext))
