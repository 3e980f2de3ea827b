-- ===== src/Store/File/Whole.antt =====
-- A save of the store replaces the file as a whole or leaves it as it was.
use ipgate.Base.{
  ◌≡◌, inl, inr, sym, ap, ◌∙◌, arith, true, Text, Result, ok, err, Run-cases, Result-cases,
}
use ipgate.Store.{State}
use ipgate.Store.File.{StateFile, load, save}

-- What is documented of the file system and of serde: only a rename that succeeds touches the file,
-- and puts the text there that was last written beside it; a printed state is read back.
pub record IsStateFile {D T : Type 0} (file : StateFile D T) : Type 0 where
  pub created : (d : D) → load file (file.create_dir_all d).1 ≡ load file d
  pub tmp_kept : (text : T) (d : D) → load file (file.write_tmp text d).1 ≡ load file d
  pub not_renamed : (d d' : D) (e : Text) → file.rename d ≡ (err e, d') → load file d' ≡ load file d
  pub renamed :
      (text : T) (d d1 d2 : D)
      → file.write_tmp text d ≡ (ok tt, d1)
      → file.rename d1 ≡ (ok tt, d2)
      → (file.exists d2 ≡ true) × (file.read d2 ≡ ok text)
  pub printed : (s : State) (text : T) → file.to_text s ≡ ok text → file.from_str text ≡ ok s

module _ {D T : Type 0} (file : StateFile D T) where
  -- What a later start loads.
  abbrev pub IsWritten : State → D → Result Text (Unit {0}) × D → Type 0
  IsWritten s d (ok _, d') = load file d' ≡ ok s
  IsWritten s d (err _, d') = load file d' ≡ load file d

module _ {D T : Type 0} (file : StateFile D T) (laws : IsStateFile file) where
  read_back :
      (s : State) (text : T) (d : D)
      → file.to_text s ≡ ok text
      → file.exists d ≡ true
      → file.read d ≡ ok text
      → load file d ≡ ok s
  unfolding load
  read_back s text d print there read =
      let parsed : file.from_str text ≡ ok s = laws.printed s text print in
      ground (arith, there, read, parsed)

  -- After a save that succeeds the store is loaded as it was saved; after one that fails, whatever
  -- was loaded before is loaded again.
  pub save-IsWritten : (s : State) (d : D) → IsWritten file s d (save file s d)
  unfolding save
  save-IsWritten s d = elim (Run-cases (file.create_dir_all d)) [
    | inr (e, d1, r) ↦ rw r (ap (λ p. load file p.1) (sym r) ∙ laws.created d)
    | inl (_, d1, r) ↦
        let first : load file d1 ≡ load file d = ap (λ p. load file p.1) (sym r) ∙ laws.created d in
        elim (Result-cases (file.to_text s)) [
          | inr (e, bad) ↦ rw (r, bad) first
          | inl (text, print) ↦ elim (Run-cases (file.write_tmp text d1)) [
            | inr (e, d2, w) ↦
                rw (r, print, w) (ap (λ p. load file p.1) (sym w) ∙ laws.tmp_kept text d1 ∙ first)
            | inl (_, d2, w) ↦ elim (Run-cases (file.rename d2)) [
              | inr (e, d3, n) ↦
                  rw (r, print, w, n)
                    (laws.not_renamed d2 d3 e n
                      ∙ ap (λ p. load file p.1) (sym w)
                      ∙ laws.tmp_kept text d1
                      ∙ first)
              | inl (_, d3, n) ↦
                  let (there, read) = laws.renamed text d1 d2 d3 w n in
                  rw (r, print, w, n) (read_back s text d3 print there read)
            ]
          ]
        ]
  ]
