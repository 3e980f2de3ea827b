-- ===== src/Noise/RoundTrip.antt =====
-- What one side sends the other side receives.
use mathlib.Core.List.{append_assoc, append-nil}
use ipgate.Base.{
  ℕ, zero, suc, ◌+◌, ◌≤◌, nat_eq, true, false, none, List, [], ◌∷◌, ◌++◌, length, take, drop, leb,
  ltb, ok, continue, ◌≡◌, refl, sym, ap, ◌∙◌, arith, All, Text,
}
use ipgate.Proto.Ports.{is_nil}
use ipgate.Proto.Rpc.{noise_max_frame}
use ipgate.Noise.{
  Bytes, be_bytes2, be_bytes4, write_frame, write_all, Transport, NoiseConn, chunks_from, chunks,
  done, received, with_total, noise_max_msg, decrypt_frame, encrypt_chunk, recv_plaintext,
  recv_loop, recv, send_chunks, send, follow,
}
use ipgate.Noise.Frames.{
  length-append, take-length, take-drop, length-drop, length-take, be_bytes4-read, frame_bytes,
  read_frame-front,
}
use ipgate.Noise.Chunks.{concat, IsChunk, chunks_from-concat, chunks_from-IsChunk}

-- What the two ends of the transport of snow have to each other: a chunk that one end encrypts has
-- sixteen bytes more, and the other end, in the same position, decrypts it to the chunk; both ends
-- have then moved on together.
pub record IsPaired {T : Type 0} (snow : Transport T) (Paired : T → T → Type 0) : Type 0 where
  pub sealed :
      (a b : T) (chunk : Bytes)
      → Paired a b
      → IsChunk chunk
      → (frame : Bytes) × (a' : T) × (b' : T) × (snow.write_message chunk a ≡ (ok frame, a'))
        × (snow.read_message frame b ≡ (ok chunk, b'))
        × (length frame ≡ length chunk + 16)
        × Paired a' b'

module _ {T : Type 0} (snow : Transport T) (Paired : T → T → Type 0)
    (laws : IsPaired snow Paired) where
  abbrev pub conn : Bytes → Bytes → T → Text → NoiseConn T
  conn input output t peer = record {
    stream = record { input = input; output = output };
    transport = t;
    peer = peer;
  }

  -- The bytes are the frames of the chunks, one after the other, and take an end from one position
  -- to another.
  Arrives : List Bytes → Bytes → T → T → Type 0
  Arrives [] bytes b b' = (bytes ≡ []) × (b ≡ b')
  Arrives (c ∷ cs) bytes b b' =
      (front : Bytes) × (back : Bytes) × (b1 : T) × (bytes ≡ front ++ back)
      × ((rest output : Bytes) (peer : Text)
          → recv_plaintext snow (conn (front ++ rest) output b peer)
            ≡ (ok c, conn rest output b1 peer))
      × Arrives cs back b1 b'

  -- What some chunks are on the wire, and where both ends are behind them.
  record Wire (cs : List Bytes) (a b : T) : Type 0 where
    bytes : Bytes
    after : T
    arrived : T
    paired : Paired after arrived
    long : length cs ≤ length bytes
    sent :
        (input output : Bytes) (peer : Text)
        → send_chunks snow cs (conn input output a peer)
          ≡ (ok tt, conn input (output ++ bytes) after peer)
    taken : Arrives cs bytes b arrived

  Wire-nil : (a b : T) → Paired a b → Wire [] a b
  unfolding send_chunks Arrives
  Wire-nil a b p = record {
    bytes = [];
    after = a;
    arrived = b;
    paired = p;
    long = omega arith;
    sent = λ input output peer. ap (λ o. (ok tt, conn input o a peer)) (sym (append-nil output));
    taken = (refl, refl);
  }

  recv_plaintext-front :
      (c frame : Bytes) (b b' : T) (rest output : Bytes) (peer : Text)
      → IsChunk c
      → length frame ≡ length c + 16
      → snow.read_message frame b ≡ (ok c, b')
      → recv_plaintext snow (conn (frame_bytes frame ++ rest) output b peer)
        ≡ (ok c, conn rest output b' peer)
  unfolding recv_plaintext decrypt_frame is_nil
  recv_plaintext-front [] frame b b' rest output peer (pos, le) long h = absurd (omega arith)
  recv_plaintext-front (x ∷ c) frame b b' rest output peer (pos, le) long h =
      rw (read_frame-front frame rest output (omega arith) (omega arith), h)

  send_chunk :
      (c frame : Bytes) (cs : List Bytes) (a a' : T) (input output : Bytes) (peer : Text)
      → snow.write_message c a ≡ (ok frame, a')
      → send_chunks snow (c ∷ cs) (conn input output a peer)
        ≡ send_chunks snow cs (conn input (output ++ frame_bytes frame) a' peer)
  unfolding send_chunks encrypt_chunk write_frame write_all
  send_chunk c frame cs a a' input output peer h = rw h (
      ap (λ o. send_chunks snow cs (conn input o a' peer))
        (append_assoc output (be_bytes2 (length frame)) frame))

  wire : (cs : List Bytes) (a b : T) → All IsChunk cs → Paired a b → Wire cs a b
  unfolding Arrives
  wire [] a b fit p = Wire-nil a b p
  wire (c ∷ cs) a b (fits, fit) p =
      let (frame, a1, b1, out, back, long, p1) = laws.sealed a b c p fits in
      let w = wire cs a1 b1 fit p1 in
      record {
        bytes = frame_bytes frame ++ w.bytes;
        after = w.after;
        arrived = w.arrived;
        paired = w.paired;
        long = ground (arith, length-append frame w.bytes, w.long);
        sent = λ input output peer.
            send_chunk c frame cs a a1 input output peer out
            ∙ w.sent input (output ++ frame_bytes frame) peer
            ∙ ap (λ o. (ok tt, conn input o w.after peer))
                (append_assoc output (frame_bytes frame) w.bytes);
        taken = (
          frame_bytes frame,
          w.bytes,
          b1,
          refl,
          λ rest output peer. recv_plaintext-front c frame b b1 rest output peer fits long back,
          w.taken,
        );
      }

  is_done : (m : Bytes) → with_total m (length m) ≡ done m
  is_done m =
      let all : leb (length m) (length m) ≡ true = ground arith in
      rw all (ap done (ap (take (length m)) (sym (append-nil m)) ∙ take-length m []))

  -- The loop between two chunks of a message: it ends with the last one.
  goes_on :
      (fuel : ℕ) (m out : Bytes) (cs : List Bytes) (bytes rest output : Bytes) (peer : Text)
      (b b' : T)
      → All IsChunk cs
      → Arrives cs bytes b b'
      → length cs ≤ fuel
      → out ++ concat cs ≡ m
      → follow snow
          (recv_loop snow fuel)
          (with_total out (length m))
          (conn (bytes ++ rest) output b peer)
        ≡ (ok m, conn rest output b' peer)
  unfolding Arrives recv_loop received
  goes_on fuel m out [] bytes rest output peer b b' fit (none_left, there) enough eq =
      let whole : with_total out (length m) ≡ done m =
        ap (λ o. with_total o (length m)) (sym (append-nil out) ∙ eq) ∙ is_done m in
      rw (whole, none_left, there)
  goes_on zero m out (c ∷ cs) bytes rest output peer b b' fit there enough eq = absurd (omega arith)
  goes_on (suc fuel) m out (c ∷ cs) bytes rest output peer b b' (fits, fit)
        (front, back, b1, split, taken, there) enough eq =
      let sum : length m ≡ length out + (length c + length (concat cs)) =
        sym (ap length eq)
        ∙ length-append out (c ++ concat cs)
        ∙ ap (◌+◌ (length out)) (length-append c (concat cs)) in
      let open_end : leb (length m) (length out) ≡ false = ground (arith, sum, fits.0) in
      rw (open_end, split, append_assoc front back rest, taken (back ++ rest) output peer)
        (goes_on fuel m (out ++ c) cs back rest output peer b1 b' fit there (omega arith)
          (append_assoc out c (concat cs) ∙ eq))

  -- The first chunk of a message holds its length.
  first_chunk :
      (n : ℕ) (m : Bytes)
      → length m ≤ noise_max_msg
      → received (be_bytes4 (length m) ++ take n m) none ≡ with_total (take n m) (length m)
  unfolding received
  first_chunk n m fits =
      let len = be_bytes4-read (length m) (omega arith) in
      let small : ltb noise_max_msg (length m) ≡ false = ground (arith, fits) in rw (len, small)

  recv_whole :
      (m part first : Bytes) (cs : List Bytes) (bytes rest out : Bytes) (other : Text) (b b' : T)
      → received first none ≡ with_total part (length m)
      → part ++ concat cs ≡ m
      → All IsChunk cs
      → Arrives (first ∷ cs) bytes b b'
      → length cs ≤ length bytes
      → recv snow (conn (bytes ++ rest) out b other) ≡ (ok m, conn rest out b' other)
  unfolding recv recv_loop Arrives
  recv_whole m part first cs bytes rest out other b b' head whole fit
        (front, back, b1, split, taken, there) long =
      let turns = length (bytes ++ rest) in
      let enough : length cs ≤ turns = ground (arith, length-append bytes rest) in
      let go = goes_on turns m part cs back rest out other b1 b' fit there enough whole in
      let input : bytes ++ rest ≡ front ++ (back ++ rest) =
        ap (λ x. x ++ rest) split ∙ append_assoc front back rest in
      ap
        (λ i.
          continue (recv_plaintext snow (conn i out b other))
            (λ buf. follow snow (recv_loop snow turns) (received buf none)))
        input
      ∙ rw (taken (back ++ rest) out other, head) go

  abbrev payload_chunks : ℕ → Bytes → List Bytes
  payload_chunks k m = chunks_from (suc (suc (suc (length m)))) (suc (suc (suc (suc k)))) (drop k m)

  chunks-header :
      (k x y z u : ℕ) (m : Bytes)
      → chunks (suc (suc (suc (suc k)))) (x ∷ y ∷ z ∷ u ∷ m)
        ≡ (x ∷ y ∷ z ∷ u ∷ take k m) ∷ payload_chunks k m
  unfolding chunks_from chunks
  chunks-header k x y z u m = refl

  payload : (k : ℕ) (m : Bytes) → take k m ++ concat (payload_chunks k m) ≡ m
  payload k m =
      ap (λ t. take k m ++ t)
        (chunks_from-concat (suc (suc (suc (length m)))) (suc (suc (suc k))) (drop k m)
          (ground (arith, length-drop k m)))
      ∙ take-drop k m

  sent_by :
      (k : ℕ)
      → suc (suc (suc (suc k))) ≡ noise_max_frame
      → (m : Bytes) (a b : T) (input output rest out : Bytes) (peer other : Text)
      → length m ≤ noise_max_msg
      → Paired a b
      → (bytes : Bytes) × (a' : T) × (b' : T) × (send snow m (conn input output a peer)
          ≡ (ok tt, conn input (output ++ bytes) a' peer))
        × (recv snow (conn (bytes ++ rest) out b other) ≡ (ok m, conn rest out b' other))
        × Paired a' b'
  unfolding send
  sent_by k size m a b input output rest out peer other fits p =
      let first = be_bytes4 (length m) ++ take k m in
      let fit_rest : All IsChunk (payload_chunks k m) =
        chunks_from-IsChunk (suc (suc (suc (length m)))) (suc (suc (suc k))) (drop k m)
          (omega arith) in
      let fit_first : IsChunk first = (omega arith, ground (arith, length-take k m)) in
      let w = wire (first ∷ payload_chunks k m) a b (fit_first, fit_rest) p in
      let cut : chunks noise_max_frame (be_bytes4 (length m) ++ m) ≡ first ∷ payload_chunks k m =
        ap (λ n. chunks n (be_bytes4 (length m) ++ m)) (sym size) ∙ chunks-header k _ _ _ _ m in
      (
        w.bytes,
        w.after,
        w.arrived,
        ap (λ cs. send_chunks snow cs (conn input output a peer)) cut ∙ w.sent input output peer,
        recv_whole m (take k m) first (payload_chunks k m) w.bytes rest out other b w.arrived
            (first_chunk k m fits) (payload k m) fit_rest w.taken (omega arith),
        w.paired,
      )

  -- A message of at most 1048576 bytes that one end sends is what the other end receives, and both
  -- ends can go on from there; what follows the message in the stream stays there. This holds for
  -- two ends of one transport, which decrypt what the other encrypts.
  pub recv-send :
      (m : Bytes) (a b : T) (input output rest out : Bytes) (peer other : Text)
      → length m ≤ noise_max_msg
      → Paired a b
      → (bytes : Bytes) × (a' : T) × (b' : T) × (send snow m (conn input output a peer)
          ≡ (ok tt, conn input (output ++ bytes) a' peer))
        × (recv snow (conn (bytes ++ rest) out b other) ≡ (ok m, conn rest out b' other))
        × Paired a' b'
  recv-send m a b input output rest out peer other fits p =
      sent_by 65515 (omega arith) m a b input output rest out peer other fits p
