-- ===== src/Noise/Chunks.antt =====
-- The chunks that `NoiseConn::send` (agent/src/noise.rs) cuts a message into.

use ipgate.Base.{
  ℕ, zero, suc, ◌≤◌, ◌<◌, nat_eq, List, [], ◌∷◌, ◌++◌, length, take, drop, ◌≡◌, refl, ap, ◌∙◌,
  arith, All,
}
use ipgate.Proto.Rpc.{noise_max_frame}
use ipgate.Noise.{Bytes, chunks_from}
use ipgate.Noise.Frames.{take-drop, length-drop, length-take}

abbrev pub concat : List Bytes → Bytes
concat [] = []
concat (c ∷ cs) = c ++ concat cs

-- A chunk is not empty and fits a frame.
abbrev pub IsChunk : Bytes → Type 0
IsChunk c = (0 < length c) × (length c ≤ noise_max_frame)

pub chunks_from-concat :
    (fuel n : ℕ) (xs : Bytes) → length xs ≤ fuel → concat (chunks_from fuel (suc n) xs) ≡ xs
unfolding chunks_from
chunks_from-concat zero n [] h = refl
chunks_from-concat zero n (x ∷ xs) h = absurd (omega arith)
chunks_from-concat (suc fuel) n [] h = refl
chunks_from-concat (suc fuel) n (x ∷ xs) h =
    let rest = chunks_from-concat fuel n (drop n xs) (ground (arith, length-drop n xs)) in
    ap (λ ys. x ∷ (take n xs ++ ys)) rest ∙ ap (◌∷◌ x) (take-drop n xs)

pub chunks_from-IsChunk :
    (fuel n : ℕ) (xs : Bytes) → suc n ≤ noise_max_frame → All IsChunk (chunks_from fuel (suc n) xs)
unfolding chunks_from
chunks_from-IsChunk zero n xs h = tt
chunks_from-IsChunk (suc fuel) n [] h = tt
chunks_from-IsChunk (suc fuel) n (x ∷ xs) h =
    ((omega arith, ground (arith, length-take n xs)), chunks_from-IsChunk fuel n (drop n xs) h)
