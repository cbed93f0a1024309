-- ===== src/Health/Store/Bounds.antt =====
-- The bounded buffers of pkg/health/store/state.go.
use tgshd.Base.{
  ℕ, zero, suc, ◌+◌, ◌-◌, ◌≤◌, List, [], ◌∷◌, ◌++◌, ◌≡◌, refl, sym, ap, ◌∙◌, arith, min, true, leb,
  length, drop, length-append, length-drop, Bool-cases, inl, inr, take, take-append-drop,
}
use tgshd.Health.Store.{keep_newest}

drop-nil {ℓ} : {A : Type ℓ} (n : ℕ) → drop {A = A} n [] ≡ []
drop-nil zero = refl
drop-nil (suc n) = refl

drop-drop {ℓ} : {A : Type ℓ} (a b : ℕ) (xs : List A) → drop b (drop a xs) ≡ drop (a + b) xs
drop-drop zero b xs = ap (λ n. drop n xs) {x = b} (omega arith)
drop-drop (suc a) b [] = drop-nil b ∙ sym (drop-nil (suc a + b))
drop-drop (suc a) b (x ∷ xs) =
    drop-drop a b xs ∙ ap (λ n. drop n (x ∷ xs)) {x = suc (a + b)} (omega arith)

drop-append {ℓ} :
    {A : Type ℓ} (a : ℕ) (xs ys : List A) → a ≤ length xs → drop a xs ++ ys ≡ drop a (xs ++ ys)
drop-append zero xs ys h = refl
drop-append (suc a) [] ys h = elim h [ ]
drop-append (suc a) (x ∷ xs) ys h = drop-append a xs ys (omega arith)

no_excess : (a n : ℕ) → leb a n ≡ true → 0 ≡ a - n
no_excess a n e = ground arith

pub keep_newest-drop {ℓ} :
    {A : Type ℓ} (n : ℕ) (xs : List A) → keep_newest n xs ≡ (drop (length xs - n) xs, length xs - n)
unfolding keep_newest
keep_newest-drop n xs = elim (Bool-cases (leb (length xs) n)) [
  | inl e ↦ rw e (ap (λ k. (drop k xs, k)) (no_excess (length xs) n e))
  | inr e ↦ rw e refl
]

newest-drop {ℓ} :
    {A : Type ℓ} (n : ℕ) (xs : List A) → (keep_newest n xs).0 ≡ drop (length xs - n) xs
newest-drop n xs = ap (λ p. p.0) (keep_newest-drop n xs)

-- Bounding a buffer before and after records are added keeps what bounding it once keeps.
pub keep_newest-append {ℓ} :
    {A : Type ℓ} (n : ℕ) (xs ys : List A)
    → (keep_newest n ((keep_newest n xs).0 ++ ys)).0 ≡ (keep_newest n (xs ++ ys)).0
keep_newest-append n xs ys =
    ap (λ zs. (keep_newest n (zs ++ ys)).0) (newest-drop n xs)
    ∙ ap (λ zs. (keep_newest n zs).0) (drop-append (length xs - n) xs ys (omega arith))
    ∙ newest-drop n (drop (length xs - n) (xs ++ ys))
    ∙ drop-drop (length xs - n) (length (drop (length xs - n) (xs ++ ys)) - n) (xs ++ ys)
    ∙ ap (λ k. drop k (xs ++ ys))
        (omega (arith, length-drop (length xs - n) (xs ++ ys), length-append xs ys))
    ∙ sym (newest-drop n (xs ++ ys))

-- What a buffer within its bound keeps is all of it.
pub keep_newest-within {ℓ} :
    {A : Type ℓ} (n : ℕ) (xs : List A) → length xs ≤ n → (keep_newest n xs).0 ≡ xs
keep_newest-within n xs h = newest-drop n xs ∙ ap (λ k. drop k xs) {y = 0} (omega arith)

-- `KeepNewest` keeps a final part of the list, within the limit, and counts what it drops from
-- the front: nothing as long as the limit is not exceeded.
pub keep_newest-bounds {ℓ} :
    {A : Type ℓ} (n : ℕ) (xs : List A)
    → (take (keep_newest n xs).1 xs ++ (keep_newest n xs).0 ≡ xs)
      × (length (keep_newest n xs).0 ≡ min n (length xs))
      × (length (keep_newest n xs).0 + (keep_newest n xs).1 ≡ length xs)
keep_newest-bounds n xs = rw (keep_newest-drop n xs) (
  take-append-drop (length xs - n) xs,
  omega (arith, length-drop (length xs - n) xs),
  omega (arith, length-drop (length xs - n) xs),
)
