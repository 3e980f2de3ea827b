-- ===== src/Noise/Turns.antt =====
-- How many frames `recv` reads before it ends.
use ipgate.Base.{
  ℕ, zero, suc, ◌+◌, ◌≤◌, ◌<◌, false, Option, none, some, [], ◌∷◌, ◌++◌, length, leb, ltb, Exec,
  ◌≡◌, refl, subst, arith, inl, inr, Bool-cases, Run-cases, Returns, Returns-bind, returns-ok,
}
use ipgate.Proto.Ports.{is_nil}
use ipgate.Noise.{
  Bytes, NoiseError, Transport, NoiseConn, Step, more, done, oversized, received, with_total,
  noise_max_msg, on_stream, decrypt_frame, read_frame, recv_plaintext, recv_loop, recv, follow,
  from_be_bytes4,
}
use ipgate.Noise.Frames.{length-append}
use ipgate.Noise.Ending.{HasEnded, ended-bind, recv_plaintext-HasEnded, recv_plaintext-Shrinks}

-- How much of a message has come in, with the four bytes of its length.
abbrev progress : Bytes → Option ℕ → ℕ
progress out none = length out
progress out (some total) = length out + 4

abbrev IsCapped : Option ℕ → Type 0
IsCapped none = Unit
IsCapped (some total) = total ≤ noise_max_msg

-- A step that goes on has lost nothing, and has not had all of the largest message.
abbrev IsGoing : ℕ → Step → Type 0
IsGoing n (done msg) = Unit
IsGoing n (oversized len) = Unit
IsGoing n (more out total) = IsCapped total × (progress out total ≡ n) × (n < noise_max_msg + 4)

with_total-IsGoing :
    (out : Bytes) (total : ℕ)
    → total ≤ noise_max_msg
    → IsGoing (length out + 4) (with_total out total)
with_total-IsGoing out total h = elim (Bool-cases (leb total (length out))) [
  | inl e ↦ rw e tt
  | inr e ↦ rw e (h, refl, ground (arith, e))
]

received-IsGoing :
    (out : Bytes) (total : Option ℕ)
    → IsCapped total
    → IsGoing (progress out total) (received out total)
unfolding received
received-IsGoing out (some total) h = with_total-IsGoing out total h
received-IsGoing (x ∷ y ∷ z ∷ u ∷ out) none h =
    elim (Bool-cases (ltb noise_max_msg (from_be_bytes4 x y z u))) [
      | inl e ↦ rw e tt
      | inr e ↦
          let fits : from_be_bytes4 x y z u ≤ noise_max_msg = ground (arith, e) in
          let same : length out + 4 ≡ length (x ∷ y ∷ z ∷ u ∷ out) = omega arith in
          rw e (
            subst (λ n. IsGoing n (with_total out (from_be_bytes4 x y z u))) same
              (with_total-IsGoing out (from_be_bytes4 x y z u) fits))
    ]
received-IsGoing [] none h = (tt, refl, omega arith)
received-IsGoing (x ∷ []) none h = (tt, refl, omega arith)
received-IsGoing (x ∷ y ∷ []) none h = (tt, refl, omega arith)
received-IsGoing (x ∷ y ∷ z ∷ []) none h = (tt, refl, omega arith)

progress-concat :
    (out buf : Bytes) (total : Option ℕ)
    → is_nil buf ≡ false
    → progress out total < progress (out ++ buf) total
unfolding is_nil
progress-concat out [] total h = cc
progress-concat out (b ∷ buf) none h = let l = length-append out (b ∷ buf) in omega arith
progress-concat out (b ∷ buf) (some total) h = let l = length-append out (b ∷ buf) in omega arith

module _ {T : Type 0} (snow : Transport T) where
  follow-HasEnded :
      (n : ℕ) (again : Bytes → Option ℕ → Exec (NoiseConn T) NoiseError Bytes) (step : Step)
      (c : NoiseConn T)
      → length c.stream.input < n
      → ((out : Bytes) (total : Option ℕ) (c' : NoiseConn T)
          → length c'.stream.input < n
          → HasEnded (again out total c'))
      → HasEnded (follow snow again step c)
  follow-HasEnded n again (done msg) c h next = λ g. cc
  follow-HasEnded n again (oversized len) c h next = λ g. cc
  follow-HasEnded n again (more out total) c h next = next out total c h

  recv_loop-HasEnded :
      (fuel : ℕ) (out : Bytes) (total : Option ℕ) (c : NoiseConn T)
      → length c.stream.input < fuel
      → HasEnded (recv_loop snow fuel out total c)
  unfolding recv_loop
  recv_loop-HasEnded zero out total c h = absurd (omega arith)
  recv_loop-HasEnded (suc fuel) out total c h =
      ended-bind (recv_plaintext snow) _ c (recv_plaintext-HasEnded snow c) (λ buf c1 e1.
        let less = returns-ok _ _ buf c1 (recv_plaintext-Shrinks snow c) e1 in
        follow-HasEnded fuel (recv_loop snow fuel) (received (out ++ buf) total) c1 (omega arith)
          (recv_loop-HasEnded fuel))

  -- A plain text that is returned is not empty.
  recv_plaintext-some :
      (c : NoiseConn T) → Returns (λ buf _. is_nil buf ≡ false) (recv_plaintext snow c)
  unfolding recv_plaintext
  recv_plaintext-some c = Returns-bind _ (on_stream snow read_frame) _ c (λ frame c1 _.
      Returns-bind _ (decrypt_frame snow frame) _ c1
        (λ buf c2 _. elim (Bool-cases (is_nil buf)) [ inl e ↦ rw e tt | inr e ↦ rw e e ]))

  bounded_follow :
      (again : Bytes → Option ℕ → Exec (NoiseConn T) NoiseError Bytes) (n : ℕ) (step : Step)
      (c : NoiseConn T)
      → IsGoing n step
      → ((out : Bytes) (total : Option ℕ)
          → IsGoing n (more out total)
          → HasEnded (again out total c))
      → HasEnded (follow snow again step c)
  bounded_follow again n (done msg) c h next = λ g. cc
  bounded_follow again n (oversized len) c h next = λ g. cc
  bounded_follow again n (more out total) c h next = next out total h

  bounded_loop :
      (turns : ℕ) (out : Bytes) (total : Option ℕ) (c : NoiseConn T)
      → IsCapped total
      → progress out total < noise_max_msg + 4
      → noise_max_msg + 4 ≤ turns + progress out total
      → HasEnded (recv_loop snow turns out total c)
  unfolding recv_loop
  bounded_loop zero out total c capped going enough = absurd (omega arith)
  bounded_loop (suc turns) out total c capped going enough =
      ended-bind (recv_plaintext snow) _ c (recv_plaintext-HasEnded snow c) (λ buf c1 e1.
        let some_bytes = returns-ok _ _ buf c1 (recv_plaintext-some c) e1 in
        let grown = progress-concat out buf total some_bytes in
        bounded_follow (recv_loop snow turns) (progress (out ++ buf) total)
          (received (out ++ buf) total) c1 (received-IsGoing (out ++ buf) total capped)
          (λ o t (capped', same, going').
            bounded_loop turns o t c1 capped' (omega arith) (omega arith)))

  -- Two loops that end, each with the turns that it has, do the same.
  same_follow :
      (again again' : Bytes → Option ℕ → Exec (NoiseConn T) NoiseError Bytes) (step : Step)
      (c : NoiseConn T)
      → HasEnded (follow snow again step c)
      → HasEnded (follow snow again' step c)
      → ((out : Bytes) (total : Option ℕ)
          → HasEnded (again out total c)
          → HasEnded (again' out total c)
          → again out total c ≡ again' out total c)
      → follow snow again step c ≡ follow snow again' step c
  same_follow again again' (done msg) c h h' next = refl
  same_follow again again' (oversized len) c h h' next = refl
  same_follow again again' (more out total) c h h' next = next out total h h'

  same_loop :
      (f g : ℕ) (out : Bytes) (total : Option ℕ) (c : NoiseConn T)
      → HasEnded (recv_loop snow f out total c)
      → HasEnded (recv_loop snow g out total c)
      → recv_loop snow f out total c ≡ recv_loop snow g out total c
  unfolding recv_loop
  same_loop zero g out total c h h' = absurd (h refl)
  same_loop (suc f) zero out total c h h' = absurd (h' refl)
  same_loop (suc f) (suc g) out total c h h' = elim (Run-cases (recv_plaintext snow c)) [
    | inr (x, c1, e) ↦ rw e refl
    | inl (buf, c1, e) ↦ rw e (
        same_follow (recv_loop snow f) (recv_loop snow g) (received (out ++ buf) total) c1
          (rw e at h) (rw e at h') (λ o t. same_loop f g o t c1))
  ]

  -- `recv` ends with a message or an error of the code, after at most 1048580 frames: with any number
  -- of turns from there on the loop ends and is `recv`, however many bytes come in and whatever the
  -- decryption makes of them.
  pub recv-HasEnded :
      (c : NoiseConn T) (turns : ℕ)
      → noise_max_msg + 4 ≤ turns
      → HasEnded (recv_loop snow turns [] none c) × (recv snow c ≡ recv_loop snow turns [] none c)
  unfolding recv
  recv-HasEnded c turns enough =
      let bounded = bounded_loop turns [] none c tt (omega arith) (omega arith) in
      let ended = recv_loop-HasEnded (suc (length c.stream.input)) [] none c (omega arith) in
      (bounded, same_loop (suc (length c.stream.input)) turns [] none c ended bounded)
