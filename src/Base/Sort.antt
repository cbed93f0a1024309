-- ===== src/Base/Sort.antt =====
-- `slices.SortFunc` and `slices.SortStableFunc` as an insertion sort: equal entries keep their
-- order. The order is the Boolean test that one entry may stand before another.
use Prim.Native.Nat.{ℕ, Ordering, compare as compare_nat}
use Prim.Native.Char.{code}
use Prim.Native.String.{String, compare, then as first}
use Prim.Native.String.compare
use mathlib.Core.Path.{◌≡◌, refl, sym, ◌∙◌}
use mathlib.Core.Logic.{inl, inr}
use mathlib.Core.Bool.{Bool, true, false}
use mathlib.Core.List.{List, [], ◌∷◌, Perm}
use mathlib.Core.List.Perm
use native.Mathlib.Omega.{arith}
use tgshd.Base.Tests.{if◌then◌else◌, Bool-cases}

module _ {ℓ} {A : Type ℓ} (le : A → A → Bool) where
  unfoldable pub place : A → List A → List A
  place x [] = x ∷ []
  place x (y ∷ ys) = if le x y then x ∷ y ∷ ys else y ∷ place x ys

  unfoldable pub sort : List A → List A
  unfolding place
  sort [] = []
  sort (x ∷ xs) = place x (sort xs)

  -- Each entry may stand before its neighbour.
  abbrev pub IsSorted : List A → Type 0
  IsSorted [] = Unit
  IsSorted (x ∷ []) = Unit
  IsSorted (x ∷ y ∷ ys) = (le x y ≡ true) × IsSorted (y ∷ ys)

  pub place-perm : (x : A) (xs : List A) → Perm (place x xs) (x ∷ xs)
  unfolding place
  place-perm x [] = Perm.rfl
  place-perm x (y ∷ ys) = elim (Bool-cases (le x y)) [
    | inl e ↦ rw e Perm.rfl
    | inr e ↦ rw e (Perm.trans (Perm.cons y (place-perm x ys)) (Perm.swap x y ys))
  ]

  pub sort-perm : (xs : List A) → Perm (sort xs) xs
  unfolding sort
  sort-perm [] = Perm.nil
  sort-perm (x ∷ xs) = Perm.trans (place-perm x (sort xs)) (Perm.cons x (sort-perm xs))

  module _ (total : (x y : A) → le x y ≡ false → le y x ≡ true) where
    -- `y` may stand before what is placed at the head.
    place-IsSorted_cons :
        (x y : A) (ys : List A) → le y x ≡ true → IsSorted (y ∷ ys) → IsSorted (y ∷ place x ys)
    unfolding place
    place-IsSorted_cons x y [] h s = (h, tt)
    place-IsSorted_cons x y (z ∷ zs) h s = elim (Bool-cases (le x z)) [
      | inl e ↦ rw e (h, (e, s.1))
      | inr e ↦ rw e (s.0, place-IsSorted_cons x z zs (total x z e) s.1)
    ]

    pub place-IsSorted : (x : A) (ys : List A) → IsSorted ys → IsSorted (place x ys)
    unfolding place
    place-IsSorted x [] s = tt
    place-IsSorted x (y ∷ ys) s = elim (Bool-cases (le x y)) [
      | inl e ↦ rw e (e, s)
      | inr e ↦ rw e (place-IsSorted_cons x y ys (total x y e) s)
    ]

    pub sort-IsSorted : (xs : List A) → IsSorted (sort xs)
    unfolding sort
    sort-IsSorted [] = tt
    sort-IsSorted (x ∷ xs) = place-IsSorted x (sort xs) (sort-IsSorted xs)

-- `strings.Compare a b <= 0`: texts by their code points, which for UTF-8 is the order of the bytes.
abbrev not_gt : Ordering → Bool
not_gt Ordering.gt = false
not_gt _ = true

unfoldable pub text_leb : String → String → Bool
text_leb a b = not_gt (compare a b)

compare_flip : (m n : ℕ) → compare_nat m n ≡ Ordering.gt → compare_nat n m ≡ Ordering.lt
compare_flip m n h = ground arith

compare_flip_eq : (m n : ℕ) → compare_nat m n ≡ Ordering.eq → compare_nat n m ≡ Ordering.eq
compare_flip_eq m n h = ground arith

-- The first difference of two texts, seen from the other side.
then_flip :
    (o p r q : Ordering)
    → (o ≡ Ordering.gt → p ≡ Ordering.lt)
    → (o ≡ Ordering.eq → p ≡ Ordering.eq)
    → (r ≡ Ordering.gt → q ≡ Ordering.lt)
    → first o r ≡ Ordering.gt
    → first p q ≡ Ordering.lt
then_flip Ordering.lt p r q over same rest h = cc
then_flip Ordering.eq p r q over same rest h = rw (same refl) (rest h)
then_flip Ordering.gt p r q over same rest h = rw (over refl)

text_compare_flip : (s t : String) → compare s t ≡ Ordering.gt → compare t s ≡ Ordering.lt
text_compare_flip String.[] String.[] h = cc
text_compare_flip String.[] (String.◌∷◌ d t) h = cc (compare.nil-cons d t)
text_compare_flip (String.◌∷◌ c s) String.[] h = compare.nil-cons c s
text_compare_flip (String.◌∷◌ c s) (String.◌∷◌ d t) h =
    compare.cons-cons d c t s
    ∙ then_flip (compare_nat (code c) (code d)) (compare_nat (code d) (code c)) (compare s t)
        (compare t s) (compare_flip (code c) (code d)) (compare_flip_eq (code c) (code d))
        (text_compare_flip s t) (sym (compare.cons-cons c d s t) ∙ h)

pub text_leb_total : (a b : String) → text_leb a b ≡ false → text_leb b a ≡ true
unfolding text_leb
text_leb_total a b h = rw (text_compare_flip a b (gt_of_not_gt (compare a b) h))
  where
    gt_of_not_gt : (o : Ordering) → not_gt o ≡ false → o ≡ Ordering.gt
    gt_of_not_gt Ordering.lt g = cc
    gt_of_not_gt Ordering.eq g = cc
    gt_of_not_gt Ordering.gt g = refl
