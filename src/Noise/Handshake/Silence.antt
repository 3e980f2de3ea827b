-- ===== src/Noise/Handshake/Silence.antt =====
-- Who is not authorised hears nothing.
use ipgate.Base.{
  ◌==◌, nat_eq, Text, ok, Exec, continue, lift, ◌≡◌, refl, sym, ap, ◌∙◌, ◌⊎◌, inl, inr, Run-cases,
  Bool-cases, leb, length,
}
use ipgate.Proto.Rpc.{HandshakeHello, HandshakeAck}
use ipgate.Noise.{
  Bytes, NoiseError, no_length, no_body, decrypt, no_remote_static, Stream, read_exact,
  frame_length, read_frame,
}
use ipgate.Noise.Handshake.{
  Responder, Codec, Accepting, or_fail, read_hello, on_stream, on_handshake, read_first, accept,
}

read_exact-output : (e : NoiseError) (n : _) (s : Stream) → (read_exact e n s).1.output ≡ s.output
unfolding read_exact
read_exact-output e n s = elim (Bool-cases (leb n (length s.input))) [ inl h ↦ rw h | inr h ↦ rw h ]

module _ {S A B : Type 0} (f : S → Bytes) where
  -- A run of two steps that both leave something alone.
  still-bind :
      (m : Exec S NoiseError A) (k : A → Exec S NoiseError B) (s : S)
      → f (m s).1 ≡ f s
      → ((a : A) (s' : S) → f (k a s').1 ≡ f s')
      → f (continue (m s) k).1 ≡ f s
  still-bind m k s h next = elim (Run-cases (m s)) [
    | inl (a, s', e) ↦ rw e (next a s' ∙ sym (ap (λ p. f p.1) e) ∙ h)
    | inr (x, s', e) ↦ rw e (sym (ap (λ p. f p.1) e) ∙ h)
  ]

read_frame-output : (s : Stream) → (read_frame s).1.output ≡ s.output
unfolding read_frame
read_frame-output s =
    still-bind (λ t. t.output) (read_exact no_length 2) _ s (read_exact-output no_length 2 s)
      (λ len t. elim (Bool-cases (frame_length len == 0)) [
        | inl h ↦ rw h
        | inr h ↦ rw h (read_exact-output no_body (frame_length len) t)
      ])

module _ {H T W : Type 0} (snow : Responder H T) (codec : Codec)
    (authorize : Text → HandshakeHello → Exec W Text HandshakeAck) where
  abbrev sent : Accepting H W → Bytes
  sent c = c.stream.output

  read_first-sent : (c : Accepting H W) → sent (read_first snow codec authorize c).1 ≡ sent c
  unfolding read_first
  read_first-sent c =
      still-bind sent (on_stream snow codec authorize read_frame) _ c (read_frame-output c.stream)
        (λ frame c1.
          still-bind sent (on_handshake snow codec authorize decrypt (snow.read_message frame)) _ c1
            refl
            (λ payload c2.
              still-bind sent
                (lift (or_fail no_remote_static (snow.get_remote_static c2.handshake))) _ c2 refl
                (λ remote c3.
                  still-bind sent (lift (read_hello codec payload)) _ c3 refl (λ hello c4. refl))))

  -- The key and the hello of the first message were authorised, with this answer.
  abbrev pub IsAuthorized : Accepting H W → Type 0
  IsAuthorized c =
      (peer : Text) × (hello : HandshakeHello) × (ack : HandshakeAck) × (c1 : Accepting H W)
      × (w : W) × (read_first snow codec authorize c ≡ (ok (peer, hello), c1))
      × (authorize peer hello c1.world ≡ (ok ack, w))

  -- A connection on which the agent has written anything at all in the handshake is one whose key
  -- and hello it has authorised: in every other case, with whatever error it ends, nothing was
  -- written.
  pub accept-silent :
      (c : Accepting H W)
      → ((accept snow codec authorize c).1.stream.output ≡ c.stream.output) ⊎ IsAuthorized c
  unfolding accept
  accept-silent c = elim (Run-cases (read_first snow codec authorize c)) [
    | inr (x, c1, e) ↦ inl (rw e (sym (ap (λ p. p.1.stream.output) e) ∙ read_first-sent c))
    | inl (first, c1, e) ↦ elim (Run-cases (authorize first.0 first.1 c1.world)) [
      | inr (x, w, a) ↦ inl (rw (e, a) (sym (ap (λ p. p.1.stream.output) e) ∙ read_first-sent c))
      | inl (ack, w, a) ↦ inr (first.0, first.1, ack, c1, w, e, a)
    ]
  ]
