-- ===== src/Noise/Ending.antt =====
-- `recv` ends, and what it returns is bounded.
use ipgate.Base.{
  ℕ, zero, suc, ◌+◌, ◌≤◌, ◌<◌, ◌==◌, nat_eq, Option, none, some, [], ◌∷◌, ◌++◌, length, leb, ltb,
  Result, ok, err, Exec, continue, ◌≡◌, ◌≢◌, ap, ◌∙◌, arith, inl, inr, Bool-cases, Run-cases,
  Returns, Returns-bind, returns-ok, subst,
}
use ipgate.Proto.Ports.{is_nil}
use ipgate.Noise.{
  Bytes, NoiseError, no_length, no_body, stalled, Stream, read_exact, frame_length, read_frame,
  Transport, NoiseConn, Step, more, done, oversized, received, with_total, noise_max_msg, on_stream,
  decrypt_frame, recv_plaintext, recv_loop, recv, follow, from_be_bytes4,
}
use ipgate.Noise.Frames.{length-take, length-drop}

-- The run did not run out of fuel.
abbrev pub HasEnded : {S A : Type 0} → Result NoiseError A × S → Type 0
HasEnded p = p.0 ≢ err stalled

-- A frame that is read takes its two bytes of length from the input.
abbrev Shrinks : {A : Type 0} → ℕ → A → Stream → Type 0
Shrinks n _ s = length s.input < n

read_exact-length :
    (e : NoiseError) (n : ℕ) (s : Stream)
    → Returns (λ _ s'. length s'.input + n ≡ length s.input) (read_exact e n s)
unfolding read_exact
read_exact-length e n s = elim (Bool-cases (leb n (length s.input))) [
  | inl fits ↦ rw fits (ground (arith, fits, length-drop n s.input))
  | inr short ↦ rw short tt
]

read_body-Shrinks :
    (n k : ℕ) (s : Stream) → length s.input < n → Returns (Shrinks n) (read_exact no_body k s)
read_body-Shrinks n k s h = elim (Run-cases (read_exact no_body k s)) [
  | inl (b, s', e) ↦
      let left = returns-ok _ _ b s' (read_exact-length no_body k s) e in rw e (omega arith)
  | inr (x, s', e) ↦ rw e tt
]

read_frame-Shrinks : (s : Stream) → Returns (Shrinks (length s.input)) (read_frame s)
unfolding read_frame
read_frame-Shrinks s = Returns-bind _ (read_exact no_length 2) _ s (λ len s1 e1.
    let left = returns-ok _ _ len s1 (read_exact-length no_length 2 s) e1 in
    elim (Bool-cases (frame_length len == 0)) [
      | inl zero_length ↦ rw zero_length tt
      | inr some_length ↦
          rw some_length (read_body-Shrinks (length s.input) (frame_length len) s1 (omega arith))
    ])

read_exact-HasEnded :
    (e : NoiseError) (n : ℕ) (s : Stream) → e ≢ stalled → HasEnded (read_exact e n s)
unfolding read_exact
read_exact-HasEnded e n s other = elim (Bool-cases (leb n (length s.input))) [
  | inl fits ↦ rw fits (λ h. cc)
  | inr short ↦ rw short (λ h. other (cc))
]

pub ended-bind :
    {S A B : Type 0} (m : Exec S NoiseError A) (f : A → Exec S NoiseError B) (s : S)
    → HasEnded (m s)
    → ((a : A) (s' : S) → m s ≡ (ok a, s') → HasEnded (f a s'))
    → HasEnded (continue (m s) f)
ended-bind m f s h next = elim (Run-cases (m s)) [
  | inl (a, s', e) ↦ rw e (next a s' e)
  | inr (x, s', e) ↦ rw e (λ g. let same : x ≡ stalled = cc in h (ap (λ p. p.0) e ∙ ap err same))
]

read_frame-HasEnded : (s : Stream) → HasEnded (read_frame s)
unfolding read_frame
read_frame-HasEnded s =
    ended-bind (read_exact no_length 2) _ s (read_exact-HasEnded no_length 2 s (λ h. cc))
      (λ len s1 _. elim (Bool-cases (frame_length len == 0)) [
        | inl zero_length ↦ rw zero_length (λ h. cc)
        | inr some_length ↦
            rw some_length (read_exact-HasEnded no_body (frame_length len) s1 (λ h. cc))
      ])

module _ {T : Type 0} (snow : Transport T) where
  on_stream-HasEnded :
      {A : Type 0} (m : Exec Stream NoiseError A) (c : NoiseConn T)
      → HasEnded (m c.stream)
      → HasEnded (on_stream snow m c)
  on_stream-HasEnded m c h = h

  decrypt_frame-HasEnded : (frame : Bytes) (c : NoiseConn T) → HasEnded (decrypt_frame snow frame c)
  unfolding decrypt_frame
  decrypt_frame-HasEnded frame c = elim (Run-cases (snow.read_message frame c.transport)) [
    | inl (b, t, e) ↦ rw e (λ h. cc)
    | inr (x, t, e) ↦ rw e (λ h. cc)
  ]

  pub recv_plaintext-HasEnded : (c : NoiseConn T) → HasEnded (recv_plaintext snow c)
  unfolding recv_plaintext
  recv_plaintext-HasEnded c =
      ended-bind (on_stream snow read_frame) _ c (read_frame-HasEnded c.stream) (λ frame c1 _.
        ended-bind (decrypt_frame snow frame) _ c1 (decrypt_frame-HasEnded frame c1) (λ buf c2 _.
          elim (Bool-cases (is_nil buf)) [ inl e ↦ rw e (λ h. cc) | inr e ↦ rw e (λ h. cc) ]))

  pub recv_plaintext-Shrinks :
      (c : NoiseConn T)
      → Returns (λ _ c'. length c'.stream.input < length c.stream.input) (recv_plaintext snow c)
  unfolding recv_plaintext decrypt_frame
  recv_plaintext-Shrinks c = Returns-bind _ (on_stream snow read_frame) _ c (λ frame c1 e1.
      Returns-bind _ (decrypt_frame snow frame) _ c1 (λ buf c2 e2. elim (Bool-cases (is_nil buf)) [
        | inl e ↦ rw e tt
        | inr e ↦
            let read : read_frame c.stream ≡ (ok frame, c1.stream) =
              ap (λ p. (p.0, p.1.stream)) e1 in
            let same : c1.stream ≡ c2.stream = ap (λ p. p.1.stream) e2 in
            let less = returns-ok _ _ frame c1.stream (read_frame-Shrinks c.stream) read in
            rw e (subst (λ s. length s.input < length c.stream.input) same less)
      ]))

  -- A step that ends has a message of at most the limit, when it goes on the total is at most it.
  abbrev IsCapped : Option ℕ → Type 0
  IsCapped none = Unit
  IsCapped (some total) = total ≤ noise_max_msg

  abbrev IsSmall : Step → Type 0
  IsSmall (done msg) = length msg ≤ noise_max_msg
  IsSmall (oversized len) = Unit
  IsSmall (more out total) = IsCapped total

  with_total-IsSmall :
      (out : Bytes) (total : ℕ) → total ≤ noise_max_msg → IsSmall (with_total out total)
  with_total-IsSmall out total h = elim (Bool-cases (leb total (length out))) [
    | inl e ↦ rw e (ground (arith, h, length-take total out))
    | inr e ↦ rw e h
  ]

  received-IsSmall :
      (out : Bytes) (total : Option ℕ) → IsCapped total → IsSmall (received out total)
  unfolding received
  received-IsSmall out (some total) h = with_total-IsSmall out total h
  received-IsSmall (x ∷ y ∷ z ∷ u ∷ out) none h =
      elim (Bool-cases (ltb noise_max_msg (from_be_bytes4 x y z u))) [
        | inl e ↦ rw e tt
        | inr e ↦ rw e (with_total-IsSmall out (from_be_bytes4 x y z u) (ground (arith, e)))
      ]
  received-IsSmall [] none h = tt
  received-IsSmall (x ∷ []) none h = tt
  received-IsSmall (x ∷ y ∷ []) none h = tt
  received-IsSmall (x ∷ y ∷ z ∷ []) none h = tt

  follow-bound :
      (again : Bytes → Option ℕ → Exec (NoiseConn T) NoiseError Bytes) (step : Step)
      (c : NoiseConn T)
      → IsSmall step
      → ((out : Bytes) (total : Option ℕ)
          → IsCapped total
          → Returns (λ m _. length m ≤ noise_max_msg) (again out total c))
      → Returns (λ m _. length m ≤ noise_max_msg) (follow snow again step c)
  follow-bound again (done msg) c h next = h
  follow-bound again (oversized len) c h next = tt
  follow-bound again (more out total) c h next = next out total h

  recv_loop-bound :
      (fuel : ℕ) (out : Bytes) (total : Option ℕ) (c : NoiseConn T)
      → IsCapped total
      → Returns (λ m _. length m ≤ noise_max_msg) (recv_loop snow fuel out total c)
  unfolding recv_loop
  recv_loop-bound zero out total c h = tt
  recv_loop-bound (suc fuel) out total c h = Returns-bind _ (recv_plaintext snow) _ c (λ buf c1 _.
      follow-bound (recv_loop snow fuel) (received (out ++ buf) total) c1
        (received-IsSmall (out ++ buf) total h) (λ o t ht. recv_loop-bound fuel o t c1 ht))

  -- A message that `recv` returns has at most 1048576 bytes, whatever length the peer announced.
  pub length-recv :
      (c c' : NoiseConn T) (msg : Bytes) → recv snow c ≡ (ok msg, c') → length msg ≤ noise_max_msg
  unfolding recv
  length-recv c c' msg h =
      returns-ok (λ m _. length m ≤ noise_max_msg) _ msg c'
        (recv_loop-bound (suc (length c.stream.input)) [] none c tt) h
