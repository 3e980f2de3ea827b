-- ===== src/SshKey/Format.antt =====
-- A key in the format of OpenSSH, as `ssh-keygen -N ""` writes it, and the seed read from it.
use mathlib.Core.List.{append_assoc}
use ipgate.Base.{
  ℕ, zero, suc, ◌+◌, ◌-◌, ◌≤◌, ◌<◌, ◌==◌, nat_eq, list_eq, true, ◌&&◌, Option, some, [], ◌∷◌, ◌++◌,
  length, take, drop, leb, Text, lit, Result, ok, continue, ◌≡◌, refl, sym, ap, ◌∙◌, arith,
}
use ipgate.Noise.{be_bytes4}
use ipgate.Noise.Frames.{length-append, take-length, drop-length, length-drop, be_bytes4-read}
use ipgate.SshKey.{
  Bytes, SshReader, new, take_bytes, u32, string, magic, none_name, ed25519_name, private_section,
  seed_in, extract_ed25519_seed, pem_body, first32, Reading, KeyError,
}

-- A string with its length before it.
abbrev pub ssh_string : Bytes → Bytes
ssh_string s = be_bytes4 (length s) ++ s

-- It fits 32 bits.
abbrev pub IsShort : ℕ → Type 0
IsShort n = n < 4294967296

drop-drop : (m n : ℕ) (xs : Bytes) → drop n (drop m xs) ≡ drop (m + n) xs
drop-drop zero n xs = let same : n ≡ 0 + n = omega arith in ap (λ k. drop k xs) same
drop-drop (suc m) zero [] = let same : suc m ≡ suc m + 0 = omega arith in ap (λ k. drop k []) same
drop-drop (suc m) (suc n) [] =
    let same : suc (m + suc n) ≡ suc m + suc n = omega arith in ap (λ k. drop k []) same
drop-drop (suc m) n (x ∷ xs) =
    let same : suc (m + n) ≡ suc m + n = omega arith in
    drop-drop m n xs ∙ ap (λ k. drop k (x ∷ xs)) same

-- The reader stands inside its buffer, before these bytes.
abbrev pub IsAt : SshReader → Bytes → Type 0
IsAt r y = (drop r.pos r.buf ≡ y) × (r.pos ≤ length r.buf)

-- The read gives this where these bytes stand next, and the reader stands behind them then.
abbrev pub Reads : {A : Type 0} → Reading A → A → Bytes → Type 0
Reads m a x =
    (r : SshReader) (y : Bytes)
    → IsAt r (x ++ y)
    → (r' : SshReader) × (m r ≡ (ok a, r')) × IsAt r' y

take_bytes-Reads : (x : Bytes) → Reads (take_bytes (length x)) x x
unfolding take_bytes
take_bytes-Reads x r y (here, inside) =
    let room : length r.buf - r.pos ≡ length x + length y =
      sym (length-drop r.pos r.buf) ∙ ap length here ∙ length-append x y in
    let fits : leb (r.pos + length x) (length r.buf) ≡ true = ground (arith, room, inside) in
    (
      record r { pos = r.pos + length x },
      rw fits (
          ap (λ b. (ok b, record r { pos = r.pos + length x }))
            (ap (take (length x)) here ∙ take-length x y)),
      (
        sym (drop-drop r.pos (length x) r.buf) ∙ ap (drop (length x)) here ∙ drop-length x y,
        omega arith,
      ),
    )

u32-Reads : (n : ℕ) → IsShort n → Reads u32 n (be_bytes4 n)
unfolding u32
u32-Reads n small r y at =
    let (r', e, at') = take_bytes-Reads (be_bytes4 n) r y at in
    (r', rw e (ap (λ k. (ok k, r')) (be_bytes4-read n small)), at')

string-Reads : (s : Bytes) → IsShort (length s) → Reads string s (ssh_string s)
unfolding string
string-Reads s small r y (here, inside) =
    let (r1, e1, at1) =
      u32-Reads (length s) small r (s ++ y)
        (here ∙ append_assoc (be_bytes4 (length s)) s y, inside) in
    let (r2, e2, at2) = take_bytes-Reads s r1 y at1 in (r2, rw (e1, e2), at2)

-- The private section: two equal checks, the type of the key, the public key and the private field.
-- The comment and the padding follow.
abbrev pub private_bytes : ℕ → Bytes → Bytes → Bytes → Bytes
private_bytes check pub32 privfield rest =
    be_bytes4 check
    ++ (be_bytes4 check
        ++ (ssh_string ed25519_name ++ (ssh_string pub32 ++ (ssh_string privfield ++ rest))))

-- A read of what stands next, and what the run does behind it.
Reads-bind :
    {A B : Type 0} (m : Reading A) (f : A → Reading B) (a : A) (x y : Bytes) (v : Result KeyError B)
    (r : SshReader)
    → Reads m a x
    → IsAt r (x ++ y)
    → ((r' : SshReader) → IsAt r' y → (f a r').0 ≡ v)
    → (continue (m r) f).0 ≡ v
Reads-bind m f a x y v r reads at next =
    let (r', e, at') = reads r y at in ap (λ p. (continue p f).0) e ∙ next r' at'

ed25519_name-IsShort : IsShort (length ed25519_name)
unfolding lit
ed25519_name-IsShort = omega arith

same_name : (ed25519_name == ed25519_name) ≡ true
same_name = ground arith

seed_in-private_bytes :
    (check : ℕ) (pub32 privfield rest : Bytes)
    → IsShort check
    → IsShort (length pub32)
    → IsShort (length privfield)
    → (seed_in (new (private_bytes check pub32 privfield rest))).0 ≡ first32 privfield
unfolding seed_in
seed_in-private_bytes check pub32 privfield rest hc hp hs =
    let same : (check == check) ≡ true = ground arith in
    Reads-bind u32 _ check (be_bytes4 check) _ _ _ (u32-Reads check hc) (refl, omega arith)
      (λ r1 at1. Reads-bind u32 _ check (be_bytes4 check) _ _ r1 (u32-Reads check hc) at1 (λ r2 at2.
        rw same (
          Reads-bind string _ ed25519_name (ssh_string ed25519_name) _ _ r2
            (string-Reads ed25519_name ed25519_name-IsShort) at2
            (λ r3 at3. rw same_name (
              Reads-bind string _ pub32 (ssh_string pub32) _ _ r3 (string-Reads pub32 hp) at3
                (λ r4 at4.
                  Reads-bind string _ privfield (ssh_string privfield) rest _ r4
                    (string-Reads privfield hs) at4 (λ r5 at5. refl)))))))

-- The whole key: the magic, no cipher and no kdf, one key, its public blob and its private section.
abbrev pub key_bytes : Bytes → Bytes → Bytes → Bytes → Bytes
key_bytes kdfopts pub_blob section rest =
    magic
    ++ (ssh_string none_name
        ++ (ssh_string none_name
            ++ (ssh_string kdfopts
                ++ (be_bytes4 1 ++ (ssh_string pub_blob ++ (ssh_string section ++ rest))))))

magic-Reads : Reads (take_bytes 15) magic magic
unfolding lit
magic-Reads = take_bytes-Reads magic

none_name-IsShort : IsShort (length none_name)
unfolding lit
none_name-IsShort = omega arith

same_magic : (magic == magic) ≡ true
same_magic = ground arith

same_none : (none_name == none_name && none_name == none_name) ≡ true
same_none = ground arith

one_key : (◌==◌ {A = ℕ} 1 1) ≡ true
one_key = ground arith

private_section-key_bytes :
    (kdfopts pub_blob section rest : Bytes)
    → IsShort (length kdfopts)
    → IsShort (length pub_blob)
    → IsShort (length section)
    → (private_section (new (key_bytes kdfopts pub_blob section rest))).0 ≡ ok section
unfolding private_section
private_section-key_bytes kdfopts pub_blob section rest ho hb hs =
    Reads-bind (take_bytes 15) _ magic magic _ _ _ magic-Reads (refl, omega arith)
      (λ r1 at1. rw same_magic (
        Reads-bind string _ none_name (ssh_string none_name) _ _ r1
          (string-Reads none_name none_name-IsShort) at1
          (λ r2 at2.
            Reads-bind string _ none_name (ssh_string none_name) _ _ r2
              (string-Reads none_name none_name-IsShort) at2
              (λ r3 at3.
                Reads-bind string _ kdfopts (ssh_string kdfopts) _ _ r3 (string-Reads kdfopts ho)
                  at3
                  (λ r4 at4. rw same_none (
                    Reads-bind u32 _ 1 (be_bytes4 1) _ _ r4 (u32-Reads 1 (omega arith)) at4
                      (λ r5 at5. rw one_key (
                        Reads-bind string _ pub_blob (ssh_string pub_blob) _ _ r5
                          (string-Reads pub_blob hb) at5
                          (λ r6 at6.
                            let (r7, e7, at7) = string-Reads section hs r6 rest at6 in
                            ap (λ p. p.0) e7)))))))))

-- From a text whose body is the base64 of a key without encryption, the seed that is read is the
-- first 32 bytes of its private field, for strings whose lengths fit 32 bits and a private field of
-- at least 32 bytes.
pub extract_ed25519_seed-key_bytes :
    (decode : Text → Option Bytes) (pem : Text) (kdfopts pub_blob : Bytes) (check : ℕ)
    (pub32 privfield padding rest : Bytes)
    → decode (pem_body pem)
      ≡ some (key_bytes kdfopts pub_blob (private_bytes check pub32 privfield padding) rest)
    → IsShort (length kdfopts)
    → IsShort (length pub_blob)
    → IsShort (length (private_bytes check pub32 privfield padding))
    → IsShort check
    → IsShort (length pub32)
    → IsShort (length privfield)
    → 32 ≤ length privfield
    → extract_ed25519_seed decode pem ≡ ok (take 32 privfield)
unfolding extract_ed25519_seed
extract_ed25519_seed-key_bytes decode pem kdfopts pub_blob check pub32 privfield padding rest body
      ho hb hs hc hp hf long =
    let enough : leb 32 (length privfield) ≡ true = ground (arith, long) in
    rw (
      body,
      private_section-key_bytes kdfopts pub_blob (private_bytes check pub32 privfield padding) rest
          ho hb hs,
      seed_in-private_bytes check pub32 privfield padding hc hp hf,
      enough,
    )
