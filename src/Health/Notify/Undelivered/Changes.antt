-- ===== src/Health/Notify/Undelivered/Changes.antt =====
-- Changes of the undelivered list of pkg/health/notify/channels.go while a message shows a part of
-- it.
use tgshd.Base.{
  ℕ, ◌+◌, ◌≤◌, min, List, [], ◌∷◌, ◌++◌, false, ◌≡◌, refl, ap, ◌∙◌, arith, leb, length, take, drop,
  length-append, length-drop, Bool-cases, inl, inr, zero, suc,
}
use mathlib.Core.List.{append_assoc}
use tgshd.Health.Notify.Undelivered.{
  UndeliveredProblem, Undelivered, max_undelivered, add, fold_excess, restore_undelivered,
}

abbrev pub total : Undelivered → ℕ
total u = length u.items + u.folded

-- What may happen to the list while a message that shows a part of it is on its way.
pub data Change : Type 0 where
  listed : UndeliveredProblem → Change
  restored : Undelivered → Change

unfoldable pub change : ℕ → Change → Undelivered → Undelivered
change held (listed p) u = add p u
change held (restored stored) u = restore_undelivered held stored u

unfoldable pub changes : ℕ → List Change → Undelivered → Undelivered
unfolding change
changes held [] u = u
changes held (c ∷ cs) u = changes held cs (change held c u)

-- How many PROBLEMs the changes bring.
abbrev pub brought : List Change → ℕ
brought [] = 0
brought (listed p ∷ cs) = 1 + brought cs
brought (restored stored ∷ cs) = total stored + brought cs

abbrev pub IsBounded : Undelivered → Type 0
IsBounded u = length u.items ≤ max_undelivered

pub take-append_le {ℓ} :
    {A : Type ℓ} (n : ℕ) (xs ys : List A) → n ≤ length xs → take n (xs ++ ys) ≡ take n xs
take-append_le zero xs ys h = refl
take-append_le (suc n) [] ys h = elim h [ ]
take-append_le (suc n) (x ∷ xs) ys h = ap (λ z. x ∷ z) (take-append_le n xs ys (omega arith))

pub take-take {ℓ} : {A : Type ℓ} (n m : ℕ) (xs : List A) → n ≤ m → take n (take m xs) ≡ take n xs
take-take zero m xs h = refl
take-take (suc n) zero xs h = elim h [ ]
take-take (suc n) (suc m) [] h = refl
take-take (suc n) (suc m) (x ∷ xs) h = ap (λ z. x ∷ z) (take-take n m xs (omega arith))

pub length-take {ℓ} : {A : Type ℓ} (n : ℕ) (xs : List A) → length (take n xs) ≡ min n (length xs)
length-take zero xs = omega arith
length-take (suc n) [] = omega arith
length-take (suc n) (x ∷ xs) = omega (arith, length-take n xs)

-- One change: the held items stay in front, the bound is kept, and the count is right.
abbrev pub IsKept : ℕ → ℕ → Undelivered → Undelivered → Type 0
IsKept held n u v =
    (take held v.items ≡ take held u.items)
    × (held ≤ length v.items)
    × IsBounded v
    × (total v ≡ total u + n)
    × (u.folded ≤ v.folded)

pub add-IsKept :
    (held : ℕ) (p : UndeliveredProblem) (u : Undelivered)
    → held ≤ length u.items
    → IsBounded u
    → IsKept held 1 u (add p u)
unfolding add
add-IsKept held p u h b = elim (Bool-cases (leb max_undelivered (length u.items))) [
  | inl e ↦ rw e (refl, h, b, omega arith, omega arith)
  | inr e ↦ rw e (
    take-append_le held u.items (p ∷ []) h,
    omega (arith, h, length-append u.items (p ∷ [])),
    not_full (length u.items) (length-append u.items (p ∷ [])) e,
    omega (arith, length-append u.items (p ∷ [])),
    omega arith,
  )
]
  where
    not_full : (n : ℕ) {m : ℕ} → m ≡ n + 1 → leb max_undelivered n ≡ false → m ≤ max_undelivered
    not_full n e f = ground (arith, e, f)

pub inserted : ℕ → Undelivered → Undelivered → List UndeliveredProblem
inserted held stored u = take held u.items ++ stored.items ++ drop held u.items

pub length-inserted :
    (held : ℕ) (stored u : Undelivered)
    → held ≤ length u.items
    → length (inserted held stored u) ≡ length u.items + length stored.items
unfolding inserted
length-inserted held stored u h = omega (
  arith,
  h,
  length-append (take held u.items ++ stored.items) (drop held u.items),
  length-append (take held u.items) stored.items,
  length-take held u.items,
  length-drop held u.items,
)

pub take-inserted :
    (held : ℕ) (stored u : Undelivered)
    → held ≤ length u.items
    → IsBounded u
    → take held (take max_undelivered (inserted held stored u)) ≡ take held u.items
unfolding inserted
take-inserted held stored u h b =
    take-take held max_undelivered (inserted held stored u) (omega (arith, h, b))
    ∙ ap (take held) (append_assoc (take held u.items) stored.items (drop held u.items))
    ∙ take-append_le held (take held u.items) (stored.items ++ drop held u.items)
        (omega (arith, h, length-take held u.items))
    ∙ take-take held held u.items (omega arith)

pub restore-IsKept :
    (held : ℕ) (stored u : Undelivered)
    → held ≤ length u.items
    → IsBounded u
    → IsKept held (total stored) u (restore_undelivered held stored u)
unfolding restore_undelivered fold_excess inserted
restore-IsKept held stored u h b = rw (the_min held (length u.items) h) (
  take-inserted held stored u h b,
  omega (
    arith,
    h,
    b,
    length-inserted held stored u h,
    length-take max_undelivered (inserted held stored u),
  ),
  omega (arith, length-take max_undelivered (inserted held stored u)),
  omega (
    arith,
    length-inserted held stored u h,
    length-take max_undelivered (inserted held stored u),
  ),
  omega arith,
)
  where
    the_min : (a b : ℕ) → a ≤ b → min a b ≡ a
    the_min a b h = omega arith

pub change-IsKept :
    (held : ℕ) (c : Change) (u : Undelivered)
    → held ≤ length u.items
    → IsBounded u
    → IsKept held (brought (c ∷ [])) u (change held c u)
unfolding change
change-IsKept held (listed p) u h b = add-IsKept held p u h b
change-IsKept held (restored stored) u h b =
    let k = restore-IsKept held stored u h b in (k.0, k.1, k.2, omega (arith, k.3), k.4)

pub brought-cons :
    (c : Change) (cs : List Change) → brought (c ∷ cs) ≡ brought (c ∷ []) + brought cs
brought-cons (listed p) cs = omega arith
brought-cons (restored stored) cs = omega arith

pub changes-IsKept :
    (held : ℕ) (cs : List Change) (u : Undelivered)
    → held ≤ length u.items
    → IsBounded u
    → IsKept held (brought cs) u (changes held cs u)
unfolding changes
changes-IsKept held [] u h b = (refl, h, b, omega arith, omega arith)
changes-IsKept held (c ∷ cs) u h b =
    let k = change-IsKept held c u h b in
    let r = changes-IsKept held cs (change held c u) k.1 k.2 in
    (r.0 ∙ k.0, r.1, r.2, omega (arith, k.3, r.3, brought-cons c cs), omega (arith, k.4, r.4))
