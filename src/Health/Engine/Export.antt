-- ===== src/Health/Engine/Export.antt =====
-- What is exported, restored, merged and cleared (pkg/health/engine.go), key by key.
use tgshd.Base.{
  ◌+◌, String, List, [], ◌∷◌, map, ◌≡◌, refl, sym, ap, ◌∙◌, none, arith, text_eq, if◌then◌else◌,
  lookup, insert, lookup-insert, eq_iff, length, starts_with, IsSorted, sort-IsSorted,
  text_leb_total, IsKeyed, find_key, last_key, Distinct, last_key-Distinct, sort-Distinct,
  find_key-select, or_else, or_else-none, keep,
}
use tgshd.Health.Types.{Condition}
use tgshd.Health.Engine.{
  Engine, clear_prefix, by_key, conditions, open_conditions, restore_onto, restore, merge,
}
use tgshd.Health.Engine.Validity.{OwnKeys, IsValid}

abbrev pub key_of : Condition → String
key_of c = c.key

lookup-restore_onto :
    (k : String) (cs : List Condition) (e : Engine)
    → lookup k (restore_onto cs e) ≡ last_key key_of k cs (lookup k e)
unfolding restore_onto last_key
lookup-restore_onto k [] e = refl
lookup-restore_onto k (c ∷ cs) e =
    lookup-restore_onto k cs (insert c.key c e)
    ∙ ap (last_key key_of k cs) (lookup-insert c.key k c e)

find_key-map :
    (k : String) (e : Engine) → OwnKeys e → find_key key_of k (map (λ p. p.1) e) ≡ lookup k e
unfolding find_key lookup
find_key-map k [] o = refl
find_key-map k ((j, c) ∷ e) o = ground (arith, find_key-map k e o.1)

map-Distinct : (e : Engine) → IsKeyed e → OwnKeys e → Distinct key_of (map (λ p. p.1) e)
map-Distinct [] h o = tt
map-Distinct ((j, c) ∷ e) h o = (find_key-map c.key e o.1 ∙ rw o.0 h.0, map-Distinct e h.1 o.1)

conditions-Distinct :
    (e : Engine)
    → IsValid e
    → ((k : String) → find_key key_of k (conditions e) ≡ lookup k e)
      × Distinct key_of (conditions e)
unfolding conditions
conditions-Distinct e v =
    let (same, distinct) =
      sort-Distinct key_of by_key (map (λ p. p.1) e) (map-Distinct e v.keyed v.own) in
    (λ k. same k ∙ find_key-map k e v.own, distinct)

-- The export is sorted by key and holds, for each key, the condition that the engine tracks; the
-- export of open conditions holds, for each key, the tracked condition just when it is open.
pub conditions-find_key :
    (e : Engine) (k : String)
    → IsValid e
    → IsSorted by_key (conditions e)
      × (find_key key_of k (conditions e) ≡ lookup k e)
      × (find_key key_of k (open_conditions e) ≡ keep (λ c. c.is_open) (lookup k e))
unfolding open_conditions
conditions-find_key e k v =
    let (found, distinct) = conditions-Distinct e v in
    (
      unfold conditions in
          sort-IsSorted by_key (λ a b. text_leb_total a.key b.key) (map (λ p. p.1) e),
      found k,
      find_key-select key_of (λ c. c.is_open) k (conditions e) distinct
          ∙ ap (keep (λ c. c.is_open)) (found k),
    )

-- Restoring an export gives back the state of every key.
pub restore-conditions :
    (e : Engine) (k : String) → IsValid e → lookup k (restore (conditions e)) ≡ lookup k e
unfolding restore lookup
restore-conditions e k v =
    let (found, distinct) = conditions-Distinct e v in
    lookup-restore_onto k (conditions e) []
    ∙ last_key-Distinct key_of k (conditions e) none distinct
    ∙ or_else-none (find_key key_of k (conditions e))
    ∙ found k

-- After `Merge` a tracked key keeps its state, and another has the first merged one, if any.
pub lookup-merge :
    (cs : List Condition) (e : Engine) (k : String)
    → lookup k (merge cs e) ≡ or_else (lookup k e) (find_key key_of k cs)
unfolding merge find_key
lookup-merge [] e k = sym (or_else-none (lookup k e))
lookup-merge (c ∷ cs) e k = ground (
  arith,
  eq_iff c.key k,
  lookup-insert c.key k c e,
  lookup-merge cs e k,
  lookup-merge cs (insert c.key c e) k,
)

-- `ClearPrefix` drops the keys with the prefix, keeps all others as they are, and counts what it
-- drops.
pub clear_prefix-lookup :
    (prefix : String) (e : Engine) (k : String)
    → let (e', n) = clear_prefix prefix e in
      (lookup k e' ≡ (if starts_with k prefix then none else lookup k e))
      × (length e' + n ≡ length e)
unfolding clear_prefix lookup
clear_prefix-lookup prefix [] k = (ground arith, omega arith)
clear_prefix-lookup prefix ((j, c) ∷ e) k =
    ground (arith, eq_iff j k, clear_prefix-lookup prefix e k)
