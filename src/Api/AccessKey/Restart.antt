-- ===== src/Api/AccessKey/Restart.antt =====
-- The access key stays the same from one start to the next, and the knock with it.
use ipgate.Base.{
  ℕ, ◌+◌, ◌/◌, ◌%◌, ◌≤◌, ◌<◌, ◌≡◌, refl, sym, ap, subst, ◌∙◌, arith, inl, inr, true, false, some,
  List, [], ◌∷◌, All, Text, to_hex, hex_digit, is_whitespace, ok, Bool-cases, Run-cases,
}
use ipgate.Base.Str.Trimming.{IsTight, trim-IsTight}
use ipgate.Proto.Ports.{SshKnock, knock_port_base, knock_port_span, is_nil}
use ipgate.Config.{AgentConfig}
use ipgate.Api.AccessKey.{
  KeyFile, not_empty, load, generate, load_or_generate, derive_knock, with_knock, try_with_knock,
}

-- A file that was written is there and is read as it was written.
pub record IsKeyFile {D : Type 0} (file : KeyFile D) : Type 0 where
  pub written :
      (text : Text) (d d' : D)
      → file.write_private text d ≡ (ok tt, d')
      → (file.exists d' ≡ true) × (file.read_to_string d' ≡ ok text)

hex_digit_tight : (n : ℕ) → n < 16 → is_whitespace (hex_digit n) ≡ false
unfolding hex_digit is_whitespace
hex_digit_tight n h = ground arith

to_hex-IsTight : (bytes : List ℕ) → All (λ b. b < 256) bytes → IsTight (to_hex bytes)
unfolding to_hex
to_hex-IsTight [] h = tt
to_hex-IsTight (b ∷ bs) (hb, h) = (
  hex_digit_tight (b / 16) (omega arith),
  (hex_digit_tight (b % 16) (omega arith), to_hex-IsTight bs h),
)

module _ {D : Type 0} (file : KeyFile D) (laws : IsKeyFile file) where
  -- What a start has to find for the key to be `key`.
  abbrev Holds : Text → D → Type 0
  Holds key d = (file.exists d ≡ true) × (load file d ≡ ok key)

  load_hex :
      (b : ℕ) (bs : List ℕ) (d : D)
      → All (λ b. b < 256) (b ∷ bs)
      → file.read_to_string d ≡ ok (to_hex (b ∷ bs))
      → load file d ≡ ok (to_hex (b ∷ bs))
  unfolding load not_empty is_nil to_hex
  load_hex b bs d small read =
      let tight = trim-IsTight (to_hex (b ∷ bs)) (to_hex-IsTight (b ∷ bs) small) in
      rw (read, tight) refl

  generate-Holds :
      (b : ℕ) (bs : List ℕ) (key : Text) (d d' : D)
      → All (λ b. b < 256) (b ∷ bs)
      → generate file (b ∷ bs) d ≡ (ok key, d')
      → Holds key d'
  unfolding generate
  generate-Holds b bs key d d' small h = elim (Run-cases (file.create_dir_all d)) [
    | inr (e, d1, r) ↦ absurd (ground (arith, r, h))
    | inl (_, d1, r) ↦ elim (Run-cases (file.write_private (to_hex (b ∷ bs)) d1)) [
      | inr (e, d2, w) ↦ absurd (ground (arith, r, w, h))
      | inl (_, d2, w) ↦
          let (there, read) = laws.written (to_hex (b ∷ bs)) d1 d2 w in
          let same : d2 ≡ d' = ground (arith, r, w, h) in
          let it : to_hex (b ∷ bs) ≡ key = ground (arith, r, w, h) in
          subst (Holds key) same (there, load_hex b bs d2 small read ∙ ap ok it)
    ]
  ]

  load_or_generate-Holds :
      (b : ℕ) (bs : List ℕ) (key : Text) (d d' : D)
      → All (λ b. b < 256) (b ∷ bs)
      → load_or_generate file (b ∷ bs) d ≡ (ok key, d')
      → Holds key d'
  unfolding load_or_generate
  load_or_generate-Holds b bs key d d' small h = elim (Bool-cases (file.exists d)) [
    | inl there ↦
        let same : d ≡ d' = ground (arith, there, h) in
        let read : load file d ≡ ok key = ground (arith, there, h) in
        subst (Holds key) same (there, read)
    | inr missing ↦
        let drawn : generate file (b ∷ bs) d ≡ (ok key, d') = ground (arith, missing, h) in
        generate-Holds b bs key d d' small drawn
  ]

  module _ (sha : Text → List ℕ) where
    abbrev filled : Text → AgentConfig → AgentConfig
    filled key cfg = record cfg { ssh_knock = some (derive_knock sha key) }

    abbrev IsRepeated : AgentConfig → AgentConfig → D → Type 0
    IsRepeated cfg c d =
        ((other : List ℕ) → with_knock file sha other cfg d ≡ (ok c, d))
        × (try_with_knock file sha cfg d ≡ c)

    Holds-IsRepeated :
        (key : Text) (cfg : AgentConfig) (d : D) → Holds key d → IsRepeated cfg (filled key cfg) d
    unfolding with_knock try_with_knock load_or_generate derive_knock
    Holds-IsRepeated key cfg d (there, read) =
        (λ other. rw (there, read) refl, rw (try_with_knock, read) refl)

    derive_knock-port :
        (key : Text)
        → (knock_port_base ≤ (derive_knock sha key).port)
          × ((derive_knock sha key).port < knock_port_base + knock_port_span)
    unfolding derive_knock
    derive_knock-port key = (omega arith, omega arith)

    -- A start that fills in the knock leaves a disk on which every later start, whatever bytes it
    -- would draw, and every rescue command fill in the same knock and change nothing. Its port lies
    -- in the span of the knock ports.
    pub with_knock_again :
        (b : ℕ) (bs other : List ℕ) (cfg c : AgentConfig) (d d' : D)
        → All (λ b. b < 256) (b ∷ bs)
        → with_knock file sha (b ∷ bs) cfg d ≡ (ok c, d')
        → (with_knock file sha other cfg d' ≡ (ok c, d'))
          × (try_with_knock file sha cfg d' ≡ c)
          × (k : SshKnock) × (c.ssh_knock ≡ some k)
          × (knock_port_base ≤ k.port)
          × (k.port < knock_port_base + knock_port_span)
    unfolding with_knock
    with_knock_again b bs other cfg c d d' small h =
        elim (Run-cases (load_or_generate file (b ∷ bs) d)) [
          | inr (e, d1, bad) ↦ absurd (ground (arith, bad, h))
          | inl (key, d1, got) ↦
              let same : d1 ≡ d' = ground (arith, got, h) in
              let result : filled key cfg ≡ c = ground (arith, got, h) in
              let held = subst (Holds key) same (load_or_generate-Holds b bs key d d1 small got) in
              let (again, rescued) =
                subst (λ x. IsRepeated cfg x d') result (Holds-IsRepeated key cfg d' held) in
              let (low, high) = derive_knock-port key in
              (
                again other,
                rescued,
                derive_knock sha key,
                sym (ap (λ (x : AgentConfig). x.ssh_knock) result),
                low,
                high,
              )
        ]
