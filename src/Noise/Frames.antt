-- ===== src/Noise/Frames.antt =====
-- Bytes of a stream: a frame that was written is the next one read.
use mathlib.Core.List.{append_assoc}
use ipgate.Base.{
  ℕ, zero, suc, ◌+◌, ◌-◌, ◌/◌, ◌%◌, ◌≤◌, ◌<◌, ◌==◌, nat_eq, true, false, List, [], ◌∷◌, ◌++◌,
  length, take, drop, leb, ok, ◌≡◌, refl, ap, arith,
}
use ipgate.Noise.{
  Bytes, NoiseError, no_length, no_body, be_bytes2, from_be_bytes2, from_be_bytes4, read_exact,
  read_frame,
}

module _ {ℓ} {A : Type ℓ} where
  pub length-append : (xs ys : List A) → length (xs ++ ys) ≡ length xs + length ys
  length-append [] ys = omega arith
  length-append (x ∷ xs) ys = ground (arith, length-append xs ys)

  pub take-length : (xs ys : List A) → take (length xs) (xs ++ ys) ≡ xs
  take-length [] ys = refl
  take-length (x ∷ xs) ys = ap (◌∷◌ x) (take-length xs ys)

  pub drop-length : (xs ys : List A) → drop (length xs) (xs ++ ys) ≡ ys
  drop-length [] ys = refl
  drop-length (x ∷ xs) ys = drop-length xs ys

  pub take-drop : (n : ℕ) (xs : List A) → take n xs ++ drop n xs ≡ xs
  take-drop zero xs = refl
  take-drop (suc n) [] = refl
  take-drop (suc n) (x ∷ xs) = ap (◌∷◌ x) (take-drop n xs)

  pub length-drop : (n : ℕ) (xs : List A) → length (drop n xs) ≡ length xs - n
  length-drop zero xs = omega arith
  length-drop (suc n) [] = omega arith
  length-drop (suc n) (x ∷ xs) = ground (arith, length-drop n xs)

  pub length-take : (n : ℕ) (xs : List A) → length (take n xs) ≤ n
  length-take zero xs = omega arith
  length-take (suc n) [] = omega arith
  length-take (suc n) (x ∷ xs) = ground (arith, length-take n xs)

pub be_bytes2-read : (n : ℕ) → n < 65536 → from_be_bytes2 (n / 256 % 256) (n % 256) ≡ n
be_bytes2-read n h = omega arith

pub be_bytes4-read :
    (n : ℕ)
    → n < 4294967296
    → from_be_bytes4 (n / 16777216 % 256) (n / 65536 % 256) (n / 256 % 256) (n % 256) ≡ n
be_bytes4-read n h = omega arith

-- The bytes that stand first in the input.
pub read_exact-front :
    (e : NoiseError) (xs rest output : Bytes)
    → read_exact e (length xs) (record { input = xs ++ rest; output = output })
      ≡ (ok xs, record { input = rest; output = output })
unfolding read_exact
read_exact-front e xs rest output =
    let fits : leb (length xs) (length (xs ++ rest)) ≡ true =
      ground (arith, length-append xs rest) in
    rw (fits, take-length xs rest, drop-length xs rest)

-- The bytes of one frame.
abbrev pub frame_bytes : Bytes → Bytes
frame_bytes bytes = be_bytes2 (length bytes) ++ bytes

pub read_frame-front :
    (bytes rest output : Bytes)
    → 0 < length bytes
    → length bytes < 65536
    → read_frame (record { input = frame_bytes bytes ++ rest; output = output })
      ≡ (ok bytes, record { input = rest; output = output })
unfolding read_frame
read_frame-front bytes rest output pos lt =
    let len = be_bytes2 (length bytes) in
    let not_empty : (length bytes == 0) ≡ false = ground (arith, pos) in
    rw
      (
        append_assoc len bytes rest,
        read_exact-front no_length len (bytes ++ rest) output,
        be_bytes2-read (length bytes) lt,
        not_empty,
      )
      (read_exact-front no_body bytes rest output)
