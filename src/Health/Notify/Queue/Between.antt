-- ===== src/Health/Notify/Queue/Between.antt =====
-- Queued messages whose ids rise, and what the operations on the queue make of them.
use tgshd.Base.{
  ℕ, zero, suc, ◌+◌, ◌≤◌, max, List, [], ◌∷◌, ◌++◌, Bool, ◌≡◌, refl, ap, arith, nat_beq, nat_eq,
  text_eq, length, drop, select, Bool-cases, inl, inr,
}
use tgshd.Health.Notify.{QueuedMessage}
use tgshd.Health.Notify.Queue.{bump_in, remove_in, top_id, next_above, renumber}

-- Ids that rise, from one bound to below another.
abbrev pub Between : ℕ → List QueuedMessage → ℕ → Type 0
Between lo [] hi = lo ≤ hi
Between lo (m ∷ ms) hi = (lo ≤ m.id) × Between (m.id + 1) ms hi

pub Between-weaken :
    (a b c d : ℕ) (ms : List QueuedMessage) → a ≤ b → c ≤ d → Between b ms c → Between a ms d
Between-weaken a b c d [] h k o = omega (arith, h, k, o)
Between-weaken a b c d (m ∷ ms) h k o =
    (omega (arith, h, o.0), Between-weaken (m.id + 1) (m.id + 1) c d ms (omega arith) k o.1)

pub Between-le : (a b : ℕ) (ms : List QueuedMessage) → Between a ms b → a ≤ b
Between-le a b [] o = o
Between-le a b (m ∷ ms) o = omega (arith, o.0, Between-le (m.id + 1) b ms o.1)

pub Between-append :
    (a b c : ℕ) (xs ys : List QueuedMessage)
    → Between a xs b
    → Between b ys c
    → Between a (xs ++ ys) c
Between-append a b c [] ys o p = Between-weaken a b c c ys o (omega arith) p
Between-append a b c (x ∷ xs) ys o p = (o.0, Between-append (x.id + 1) b c xs ys o.1 p)

pub Between-drop : (a b n : ℕ) (ms : List QueuedMessage) → Between a ms b → Between a (drop n ms) b
Between-drop a b zero ms o = o
Between-drop a b (suc n) [] o = o
Between-drop a b (suc n) (m ∷ ms) o =
    Between-weaken a (m.id + 1) b b (drop n ms) (omega (arith, o.0)) (omega arith)
      (Between-drop (m.id + 1) b n ms o.1)

pub Between-select :
    (p : QueuedMessage → Bool) (a b : ℕ) (ms : List QueuedMessage)
    → Between a ms b
    → Between a (select p ms) b
Between-select p a b [] o = o
Between-select p a b (m ∷ ms) o = elim (Bool-cases (p m)) [
  | inl e ↦ rw e (o.0, Between-select p (m.id + 1) b ms o.1)
  | inr e ↦ rw e (
      Between-weaken a (m.id + 1) b b (select p ms) (omega (arith, o.0)) (omega arith)
        (Between-select p (m.id + 1) b ms o.1))
]

pub Between-remove :
    (id a b : ℕ) (ms : List QueuedMessage) → Between a ms b → Between a (remove_in id ms) b
unfolding remove_in
Between-remove id a b [] o = o
Between-remove id a b (m ∷ ms) o = elim (Bool-cases (nat_beq m.id id)) [
  | inl e ↦ rw e (Between-weaken a (m.id + 1) b b ms (omega (arith, o.0)) (omega arith) o.1)
  | inr e ↦ rw e (o.0, Between-remove id (m.id + 1) b ms o.1)
]

pub Between-bump :
    (id a b : ℕ) (ms : List QueuedMessage) → Between a ms b → Between a (bump_in id ms) b
unfolding bump_in
Between-bump id a b [] o = o
Between-bump id a b (m ∷ ms) o = elim (Bool-cases (nat_beq m.id id)) [
  | inl e ↦ rw e (o.0, Between-bump id (m.id + 1) b ms o.1)
  | inr e ↦ rw e (o.0, Between-bump id (m.id + 1) b ms o.1)
]

pub Between-renumber :
    (top : ℕ) (ms : List QueuedMessage) → Between (top + 1) (renumber top ms) (top + length ms + 1)
unfolding renumber
Between-renumber top [] = omega arith
Between-renumber top (m ∷ ms) = (
  omega arith,
  Between-weaken (top + 1 + 1) (top + 1 + 1) (top + 1 + length ms + 1) (top + suc (length ms) + 1)
      (renumber (top + 1) ms) (omega arith) (omega arith) (Between-renumber (top + 1) ms),
)

pub length-bump : (id : ℕ) (ms : List QueuedMessage) → length (bump_in id ms) ≡ length ms
unfolding bump_in
length-bump id [] = refl
length-bump id (m ∷ ms) = ap suc (length-bump id ms)

pub length-remove-le : (id : ℕ) (ms : List QueuedMessage) → length (remove_in id ms) ≤ length ms
unfolding remove_in
length-remove-le id [] = omega arith
length-remove-le id (m ∷ ms) = ground (arith, length-remove-le id ms)

pub Between-next_above :
    (lo hi n : ℕ) (ms : List QueuedMessage)
    → lo ≤ n
    → Between lo ms hi
    → Between lo ms (next_above n ms)
unfolding next_above
Between-next_above lo hi n [] h o = h
Between-next_above lo hi n (m ∷ ms) h o =
    (o.0, Between-next_above (m.id + 1) hi (max n (m.id + 1)) ms (omega arith) o.1)

pub Between-top_id :
    (lo hi t : ℕ) (ms : List QueuedMessage)
    → lo ≤ t + 1
    → Between lo ms hi
    → Between lo ms (top_id t ms + 1)
unfolding top_id
Between-top_id lo hi t [] h o = h
Between-top_id lo hi t (m ∷ ms) h o =
    (o.0, Between-top_id (m.id + 1) hi (max t m.id) ms (omega arith) o.1)
