-- ===== src/Handlers/Unified/Conflicts.antt =====
-- The marks on the list of all forwards.
use ipgate.Base.{
  nat_eq, list_eq, option_eq, Bool, true, false, ◌&&◌, Option, List, [], ◌∷◌, map, Text, any,
  is_some, ◌≡◌, refl, sym, ap, ◌∙◌, inl, inr, arith, Bool-cases, All, All-mono,
}
use ipgate.Proto.Ports.{overlaps}
use ipgate.Proto.Forwards.{UnifiedForwardView}
use ipgate.Handlers.Unified.{eff, collides, mark, mark_all}

collides_comm : (d : Option Text) (v u : UnifiedForwardView) → collides d v u ≡ collides d u v
unfolding overlaps
collides_comm d v u = ground arith

-- What the marking does not change, and when it marks.
collides-mark_left :
    (d : Option Text) (others : List UnifiedForwardView) (v u : UnifiedForwardView)
    → collides d (mark d others v) u ≡ collides d v u
unfolding mark
collides-mark_left d others v u =
    elim (Bool-cases (is_some (eff d v) && any (collides d v) others)) [
      | inl e ↦ rw e
      | inr e ↦ rw e
    ]

collides-mark_right :
    (d : Option Text) (others : List UnifiedForwardView) (v u : UnifiedForwardView)
    → collides d v (mark d others u) ≡ collides d v u
collides-mark_right d others v u =
    collides_comm d v (mark d others u) ∙ collides-mark_left d others u v ∙ collides_comm d u v

mark-conflict :
    (d : Option Text) (others : List UnifiedForwardView) (v : UnifiedForwardView)
    → v.conflict ≡ false
    → (mark d others v).conflict ≡ (is_some (eff d v) && any (collides d v) others)
unfolding mark
mark-conflict d others v fresh =
    elim (Bool-cases (is_some (eff d v) && any (collides d v) others)) [
      | inl e ↦ rw e
      | inr e ↦ rw e fresh
    ]

-- Views that collide both have an interface or both have none.
collides-eff :
    (d : Option Text) (v u : UnifiedForwardView)
    → collides d v u ≡ true
    → is_some (eff d u) ≡ is_some (eff d v)
unfolding overlaps
collides-eff d v u h = ap is_some (ground (arith, h))

module _ {A : Type 0} where
  -- Every test that the element passes is passed by some element of the list.
  abbrev IsIn : List A → A → Type 0
  IsIn xs x = (p : A → Bool) → p x ≡ true → any p xs ≡ true

  All-IsIn : (xs : List A) → All (IsIn xs) xs
  unfolding any
  All-IsIn [] = tt
  All-IsIn (x ∷ xs) = (λ p h. rw h, All-mono (λ y i p h. ground (arith, i p h)) xs (All-IsIn xs))

  any_mono :
      (p q : A → Bool) (xs : List A)
      → All (λ x. p x ≡ true → q x ≡ true) xs
      → any p xs ≡ true
      → any q xs ≡ true
  unfolding any
  any_mono p q [] h e = e
  any_mono p q (x ∷ xs) (hx, h) e = elim (Bool-cases (p x)) [
    | inl px ↦ rw (hx px)
    | inr px ↦ ground (arith, any_mono p q xs h)
  ]

any-cong : {A : Type 0} (p q : A → Bool) (xs : List A) → ((x : A) → p x ≡ q x) → any p xs ≡ any q xs
unfolding any
any-cong p q [] h = refl
any-cong p q (x ∷ xs) h = rw (h x, any-cong p q xs h)

any-map :
    {A B : Type 0} (p : B → Bool) (f : A → B) (xs : List A)
    → any p (map f xs) ≡ any (λ x. p (f x)) xs
unfolding any
any-map p f [] = refl
any-map p f (x ∷ xs) = rw (any-map p f xs)

All-map :
    {A B : Type 0} (P : B → Type 0) (f : A → B) (xs : List A)
    → All (λ x. P (f x)) xs
    → All P (map f xs)
All-map P f [] h = tt
All-map P f (x ∷ xs) (hx, h) = (hx, All-map P f xs h)

-- Before its list is marked, a view has no mark.
abbrev pub IsFresh : List UnifiedForwardView → Type 0
IsFresh = All (λ v. v.conflict ≡ false)

-- A marked view collides with a marked view of the other list.
abbrev pub HasPartner : Option Text → List UnifiedForwardView → UnifiedForwardView → Type 0
HasPartner d others v = v.conflict ≡ true → any (λ u. u.conflict && collides d v u) others ≡ true

All-both :
    {A : Type 0} (P Q : A → Type 0) (xs : List A) → All P xs → All Q xs → All (λ x. P x × Q x) xs
All-both P Q [] hp hq = tt
All-both P Q (x ∷ xs) (px, hp) (qx, hq) = ((px, qx), All-both P Q xs hp hq)

-- The two lists collide with the same views.
abbrev Agrees : Option Text → List UnifiedForwardView → List UnifiedForwardView → Type 0
Agrees d xs ys = (v : UnifiedForwardView) → any (collides d v) xs ≡ any (collides d v) ys

mark_all-Agrees :
    (d : Option Text) (others vs : List UnifiedForwardView) → Agrees d (mark_all d others vs) vs
unfolding mark_all
mark_all-Agrees d others vs u = any-map (collides d u) (mark d others) vs ∙ same vs
  where
    same :
        (xs : List UnifiedForwardView)
        → any (λ x. collides d u (mark d others x)) xs ≡ any (collides d u) xs
    same xs = any-cong _ _ xs (λ x. collides-mark_right d others u x)

module _ (d : Option Text) (xs ys xs' ys' : List UnifiedForwardView) (hx : Agrees d xs' xs)
    (hy : Agrees d ys' ys) where
  -- The partner of one view, in the other list with its marks.
  marked_partner :
      (v u : UnifiedForwardView)
      → IsIn xs v
      → u.conflict ≡ false
      → is_some (eff d v) ≡ true
      → collides d v u ≡ true
      → ((mark d xs' u).conflict && collides d (mark d ys' v) (mark d xs' u)) ≡ true
  marked_partner v u inside fresh known hit =
      let back : collides d u v ≡ true = sym (collides_comm d v u) ∙ hit in
      let found : any (collides d u) xs' ≡ true = hx u ∙ inside (collides d u) back in
      let face : is_some (eff d u) ≡ true = collides-eff d v u hit ∙ known in
      rw (
        mark-conflict d xs' u fresh,
        found,
        face,
        collides-mark_left d ys' v (mark d xs' u),
        collides-mark_right d xs' v u,
        hit,
      )

  has_partner :
      (v : UnifiedForwardView)
      → IsIn xs v
      → IsFresh ys
      → v.conflict ≡ false
      → HasPartner d (mark_all d xs' ys) (mark d ys' v)
  unfolding mark_all
  has_partner v inside hys fresh marked =
      let hits : (is_some (eff d v) && any (collides d v) ys) ≡ true =
        ap (λ b. is_some (eff d v) && b) (sym (hy v))
        ∙ sym (mark-conflict d ys' v fresh)
        ∙ marked in
      any-map _ (mark d xs') ys
      ∙ any_mono (collides d v) _ ys
          (All-mono (λ u fu hit. marked_partner v u inside fu (ground (arith, hits)) hit) ys hys)
          (ground (arith, hits))

  All-partners :
      IsFresh xs → IsFresh ys → All (HasPartner d (mark_all d xs' ys)) (mark_all d ys' xs)
  unfolding mark_all
  All-partners hxs hys = All-map (HasPartner d (mark_all d xs' ys)) (mark d ys') xs (
      All-mono (λ v (inside, fresh). has_partner v inside hys fresh) xs
        (All-both _ _ xs (All-IsIn xs) hxs))

-- For views without marks: every native view that is marked collides with a view of dnat that is
-- marked too, and every view of dnat that is marked with a native one.
marks_lem :
    (d : Option Text) (native dnat : List UnifiedForwardView)
    → IsFresh native
    → IsFresh dnat
    → All (HasPartner d (mark_all d (mark_all d dnat native) dnat)) (mark_all d dnat native)
      × All (HasPartner d (mark_all d dnat native)) (mark_all d (mark_all d dnat native) dnat)
marks_lem d native dnat hn hd =
    let marked = mark_all d dnat native in
    let agrees = mark_all-Agrees d dnat native in
    (
      All-partners d native dnat marked dnat agrees (λ v. refl) hn hd,
      All-partners d dnat native dnat marked (λ v. refl) agrees hd hn,
    )
