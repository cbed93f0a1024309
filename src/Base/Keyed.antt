-- ===== src/Base/Keyed.antt =====
-- Lists whose entries carry a key: finding by key, and sorting when the keys are distinct.
use mathlib.Core.Path.{◌≡◌, refl, ◌∙◌}
use mathlib.Core.Bool.{Bool}
use mathlib.Core.Option.{Option, none, some}
use mathlib.Core.List.{List, [], ◌∷◌}
use native.Mathlib.Omega.{arith}
use tgshd.Base.Tests.{Eq, if◌then◌else◌}
use tgshd.Base.Lists.{select}
use tgshd.Base.Assoc.{lookup, IsKeyed}
use tgshd.Base.Sort.{place, sort}

abbrev pub or_else {ℓ} : {A : Type ℓ} → Option A → Option A → Option A
or_else none d = d
or_else (some a) d = some a

pub or_else-none {ℓ} : {A : Type ℓ} (o : Option A) → or_else o none ≡ o
or_else-none none = refl
or_else-none (some a) = refl

-- The value if it passes the test.
abbrev pub keep {ℓ} : {A : Type ℓ} → (A → Bool) → Option A → Option A
keep p none = none
keep p (some a) = if p a then some a else none

module _ {ℓ κ} {K : Type ℓ} {A : Type κ} ⦃e : Eq K⦄ (key_of : A → K) where
  -- The first entry with a key.
  unfoldable pub find_key : K → List A → Option A
  find_key k [] = none
  find_key k (a ∷ rest) = if e.beq (key_of a) k then some a else find_key k rest

  -- The last entry with a key, or else a given one.
  unfoldable pub last_key : K → List A → Option A → Option A
  last_key k [] d = d
  last_key k (a ∷ rest) d = last_key k rest (if e.beq (key_of a) k then some a else d)

  abbrev pub Distinct : List A → Type κ
  Distinct [] = Unit
  Distinct (a ∷ rest) = (find_key (key_of a) rest ≡ none) × Distinct rest

  pub last_key-Distinct :
      (k : K) (xs : List A) (d : Option A)
      → Distinct xs
      → last_key k xs d ≡ or_else (find_key k xs) d
  unfolding last_key find_key
  last_key-Distinct k [] d h = refl
  last_key-Distinct k (a ∷ xs) d h = ground (
    arith,
    e.beq_iff (key_of a) k,
    last_key-Distinct k xs (some a) h.1,
    last_key-Distinct k xs d h.1,
  )

  pub find_key-place :
      (le : A → A → Bool) (k : K) (a : A) (xs : List A)
      → find_key (key_of a) xs ≡ none
      → find_key k (place le a xs) ≡ (if e.beq (key_of a) k then some a else find_key k xs)
  unfolding find_key place
  find_key-place le k a [] h = refl
  find_key-place le k a (b ∷ xs) h = ground (
    arith,
    e.beq_iff (key_of a) k,
    e.beq_iff (key_of b) k,
    e.beq_iff (key_of b) (key_of a),
    find_key-place le k a xs,
  )

  place-Distinct :
      (le : A → A → Bool) (a : A) (xs : List A)
      → find_key (key_of a) xs ≡ none
      → Distinct xs
      → Distinct (place le a xs)
  unfolding find_key place
  place-Distinct le a [] h v = (refl, tt)
  place-Distinct le a (b ∷ xs) h v = ground (
    arith,
    e.beq_iff (key_of a) (key_of b),
    e.beq_iff (key_of b) (key_of a),
    find_key-place le (key_of b) a xs,
    place-Distinct le a xs,
  )

  -- Sorting entries with distinct keys keeps each key's entry.
  pub sort-Distinct :
      (le : A → A → Bool) (xs : List A)
      → Distinct xs
      → ((k : K) → find_key k (sort le xs) ≡ find_key k xs) × Distinct (sort le xs)
  unfolding find_key sort
  sort-Distinct le [] v = (λ k. refl, tt)
  sort-Distinct le (a ∷ xs) v =
      let (same, distinct) = sort-Distinct le xs v.1 in
      let fresh = same (key_of a) ∙ v.0 in
      (
        λ k. find_key-place le k a (sort le xs) fresh ∙ rw (same k),
        place-Distinct le a (sort le xs) fresh distinct,
      )

  select-find_key-none :
      (p : A → Bool) (k : K) (xs : List A) → find_key k xs ≡ none → find_key k (select p xs) ≡ none
  unfolding find_key
  select-find_key-none p k [] h = refl
  select-find_key-none p k (a ∷ xs) h =
      ground (arith, e.beq_iff (key_of a) k, select-find_key-none p k xs)

  pub find_key-select :
      (p : A → Bool) (k : K) (xs : List A)
      → Distinct xs
      → find_key k (select p xs) ≡ keep p (find_key k xs)
  unfolding find_key
  find_key-select p k [] v = refl
  find_key-select p k (a ∷ xs) v =
      ground
        (arith, e.beq_iff (key_of a) k, find_key-select p k xs v.1, select-find_key-none p k xs)

-- A map whose entries are filtered by their values.
module _ {ℓ κ} {K : Type ℓ} {V : Type κ} ⦃e : Eq K⦄ (p : V → Bool) where
  select-lookup-none :
      (k : K) (m : List (K × V))
      → lookup k m ≡ none
      → lookup k (select (λ entry. p entry.1) m) ≡ none
  unfolding lookup
  select-lookup-none k [] h = refl
  select-lookup-none k ((j, v) ∷ m) h = ground (arith, e.beq_iff j k, select-lookup-none k m)

  pub lookup-select :
      (k : K) (m : List (K × V))
      → IsKeyed m
      → lookup k (select (λ entry. p entry.1) m) ≡ keep p (lookup k m)
  unfolding lookup
  lookup-select k [] h = refl
  lookup-select k ((j, v) ∷ m) h =
      ground (arith, e.beq_iff j k, select-lookup-none k m, lookup-select k m h.1)

  pub select-IsKeyed : (m : List (K × V)) → IsKeyed m → IsKeyed (select (λ entry. p entry.1) m)
  select-IsKeyed [] h = tt
  select-IsKeyed ((j, v) ∷ m) h = ground (arith, select-lookup-none j m h.0, select-IsKeyed m h.1)
