-- ===== src/Health/Store/Database/Inserts.antt =====
-- Inserting rows, and sorting mapped lists: the lemmas on the tables of a checkpoint.
use tgshd.Base.{
  List, [], ◌∷◌, ◌++◌, map, Bool, true, false, ◌≡◌, refl, sym, ap, ◌∙◌, arith, none, some, Eq,
  Bool-cases, inl, inr, sort, place, find_key, Distinct, All,
}
use mathlib.Core.List.{append-nil, append_assoc}
use tgshd.Health.Store.{SampleRow, LoggedAlert}
use tgshd.Health.Store.Rows.{StoredSample, sample_row, AlertRow, alert_row}
use tgshd.Health.Store.Database.{insert_rows, kind_ok, insert_alerts, is_nan, insert_samples}

-- The inserts succeed for entries that pass the check and have distinct keys, and add their rows.
module _ {ℓ κ ι} {K : Type ι} {A : Type ℓ} {R : Type κ} ⦃e : Eq K⦄ (key_of : A → K)
    (row_key : R → K) (row : A → R) (accepts : A → Bool)
    (same : (a : A) → row_key (row a) ≡ key_of a) where
  find_key-absent :
      (k : K) (r : R) (table : List R)
      → find_key row_key k table ≡ none
      → e.beq (row_key r) k ≡ false
      → find_key row_key k (table ++ (r ∷ [])) ≡ none
  unfolding find_key
  find_key-absent k r [] h n = rw n refl
  find_key-absent k r (t ∷ table) h n = ground (arith, find_key-absent k r table)

  head_differs :
      (a x : A) (xs : List A)
      → find_key key_of (key_of a) (x ∷ xs) ≡ none
      → (e.beq (key_of a) (key_of x) ≡ false) × (find_key key_of (key_of a) xs ≡ none)
  unfolding find_key
  head_differs a x xs h =
      ground (arith, e.beq_iff (key_of a) (key_of x), e.beq_iff (key_of x) (key_of a))

  all_absent :
      (a : A) (xs : List A) (table : List R)
      → find_key key_of (key_of a) xs ≡ none
      → All (λ x. find_key row_key (key_of x) table ≡ none) xs
      → All (λ x. find_key row_key (key_of x) (table ++ (row a ∷ [])) ≡ none) xs
  unfolding find_key
  all_absent a [] table h t = tt
  all_absent a (x ∷ xs) table h t =
      let parts = head_differs a x xs h in
      (
        find_key-absent (key_of x) (row a) table t.0 (rw (same a) parts.0),
        all_absent a xs table parts.1 t.1,
      )

  insert_rows-map :
      (xs : List A) (table : List R)
      → Distinct key_of xs
      → All (λ x. accepts x ≡ true) xs
      → All (λ x. find_key row_key (key_of x) table ≡ none) xs
      → insert_rows key_of row_key row accepts xs table ≡ some (table ++ map row xs)
  unfolding insert_rows
  insert_rows-map [] table d ok t = ap some (sym (append-nil table))
  insert_rows-map (x ∷ xs) table d ok t =
      rw (ok.0, t.0)
        (insert_rows-map xs (table ++ (row x ∷ [])) d.1 ok.1 (all_absent x xs table d.0 t.1)
          ∙ ap some (append_assoc table (row x ∷ []) (map row xs)))

  absent_nil : (xs : List A) → All (λ x. find_key row_key (key_of x) [] ≡ none) xs
  unfolding find_key
  absent_nil [] = tt
  absent_nil (x ∷ xs) = (refl, absent_nil xs)

  pub insert_rows-nil :
      (xs : List A)
      → Distinct key_of xs
      → All (λ x. accepts x ≡ true) xs
      → insert_rows key_of row_key row accepts xs [] ≡ some (map row xs)
  insert_rows-nil xs d ok = insert_rows-map xs [] d ok (absent_nil xs)

pub insert_alerts-map :
    (alerts : List LoggedAlert) (table : List AlertRow)
    → All (λ a. kind_ok a ≡ true) alerts
    → insert_alerts alerts table ≡ some (table ++ map alert_row alerts)
unfolding insert_alerts
insert_alerts-map [] table ok = ap some (sym (append-nil table))
insert_alerts-map (a ∷ alerts) table ok = rw ok.0 (
    insert_alerts-map alerts (table ++ (alert_row a ∷ [])) ok.1
    ∙ ap some (append_assoc table (alert_row a ∷ []) (map alert_row alerts)))

pub insert_samples-map :
    (samples : List SampleRow) (table : List StoredSample)
    → All (λ r. is_nan r.value ≡ false) samples
    → insert_samples samples table ≡ some (table ++ map sample_row samples)
unfolding insert_samples
insert_samples-map [] table ok = ap some (sym (append-nil table))
insert_samples-map (r ∷ samples) table ok = rw ok.0 (
    insert_samples-map samples (table ++ (sample_row r ∷ [])) ok.1
    ∙ ap some (append_assoc table (sample_row r ∷ []) (map sample_row samples)))

-- Sorting by a key that the mapping keeps.
module _ {ℓ κ} {A : Type ℓ} {B : Type κ} (le : A → A → Bool) (le' : B → B → Bool) (f : A → B)
    (same : (a b : A) → le' (f a) (f b) ≡ le a b) where
  place-map : (a : A) (xs : List A) → place le' (f a) (map f xs) ≡ map f (place le a xs)
  unfolding place
  place-map a [] = refl
  place-map a (x ∷ xs) = elim (Bool-cases (le a x)) [
    | inl h ↦ rw (same a x, h) refl
    | inr h ↦ rw (same a x, h) (ap (λ z. f x ∷ z) (place-map a xs))
  ]

  pub sort-map : (xs : List A) → sort le' (map f xs) ≡ map f (sort le xs)
  unfolding sort
  sort-map [] = refl
  sort-map (x ∷ xs) = ap (place le' (f x)) (sort-map xs) ∙ place-map x (sort le xs)

place-All {ℓ κ} :
    {A : Type ℓ} (P : A → Type κ) (le : A → A → Bool) (a : A) (xs : List A)
    → P a
    → All P xs
    → All P (place le a xs)
unfolding place
place-All P le a [] p h = (p, tt)
place-All P le a (x ∷ xs) p h = elim (Bool-cases (le a x)) [
  | inl e ↦ rw e (p, (h.0, h.1))
  | inr e ↦ rw e (h.0, place-All P le a xs p h.1)
]

pub sort-All {ℓ κ} :
    {A : Type ℓ} (P : A → Type κ) (le : A → A → Bool) (xs : List A) → All P xs → All P (sort le xs)
unfolding sort
sort-All P le [] h = tt
sort-All P le (x ∷ xs) h = place-All P le x (sort le xs) h.0 (sort-All P le xs h.1)

pub map-map_of {ℓ κ ι} :
    {A : Type ℓ} {B : Type κ} {C : Type ι} (g : B → C) (f : A → B) (k : A → C)
    → ((a : A) → g (f a) ≡ k a)
    → (xs : List A) → map g (map f xs) ≡ map k xs
map-map_of g f k e [] = refl
map-map_of g f k e (x ∷ xs) = rw (e x, map-map_of g f k e xs) refl
