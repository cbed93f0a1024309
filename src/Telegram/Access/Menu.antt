-- ===== src/Telegram/Access/Menu.antt =====
-- Who is allowed, and the scopes of the menu: access.go of pkg/telegram/route.
use tgshd.Base.{
  ℤ, int_beq, int_beq_iff, is_positive, is_zero_int, List, [], ◌∷◌, Bool, true, false, not, ◌&&◌,
  ◌||◌, ◌≡◌, inl, inr, refl, sym, subst, ◌∙◌, arith, any, All, Bool-cases,
}
use tgshd.Telegram.Access.{
  AccessList, allowed, admit, admit_all, new_access_list, chat_private, chat_group, permit,
  scope_private, scope_group_member, MenuScope,
}

or_true : (a : Bool) → a ≡ true → a ≡ (a || true)
or_true a h = rw h refl

or_false : (a : Bool) → a ≡ (a || false)
or_false true = refl
or_false false = refl

held_absorbs :
    (x id : ℤ) (ids : AccessList)
    → any (int_beq id) ids ≡ true
    → any (int_beq x) ids ≡ (any (int_beq x) ids || (int_beq x id && true))
held_absorbs x id ids held = elim (Bool-cases (int_beq x id)) [
  | inl same ↦
      let here = subst (λ y. any (int_beq y) ids ≡ true) (sym ((int_beq_iff x id).0 same)) held in
      rw same (or_true (any (int_beq x) ids) here)
  | inr other ↦ rw other (or_false (any (int_beq x) ids))
]

no_one : (x : ℤ) → allowed x (let nobody : AccessList = [] in nobody) ≡ false
unfolding allowed
no_one x = refl

allowed-admit :
    (id x : ℤ) (ids : AccessList)
    → allowed x (admit id ids) ≡ (allowed x ids || (int_beq x id && not (is_zero_int id)))
unfolding allowed admit
allowed-admit id x ids = elim (Bool-cases (is_zero_int id)) [
  | inl z ↦ rw z (ground arith)
  | inr z ↦ elim (Bool-cases (any (int_beq id) ids)) [
    | inl held ↦ rw (z, held) (held_absorbs x id ids held)
    | inr new ↦ rw (z, new) (ground arith)
  ]
]

allowed-admit_all :
    (extra : List ℤ) (x : ℤ) (ids : AccessList)
    → allowed x (admit_all extra ids)
      ≡ (allowed x ids || (any (int_beq x) extra && not (is_zero_int x)))
unfolding admit_all
allowed-admit_all [] x ids = ground arith
allowed-admit_all (id ∷ extra) x ids =
    allowed-admit_all extra x (admit id ids)
    ∙ ground (arith, allowed-admit id x ids, int_beq_iff x id)

-- Exactly the configured chat and the extra ones are allowed, and never the chat 0.
pub allowed-new_access_list :
    (chat_id : ℤ) (extra : List ℤ) (x : ℤ)
    → allowed x (new_access_list chat_id extra)
      ≡ ((int_beq x chat_id || any (int_beq x) extra) && not (is_zero_int x))
unfolding new_access_list
allowed-new_access_list chat_id extra x =
    allowed-admit_all extra x (admit chat_id [])
    ∙ ground (arith, allowed-admit chat_id x [], no_one x, int_beq_iff x chat_id)

-- A scope in which the user who sees the menu may run its commands: a user's own chat, which is
-- allowed and whose id is positive, or an allowed group, whose id is not, with an allowed user.
abbrev pub is_permitted : AccessList → MenuScope → Bool
is_permitted ids s = elim s.kind [
  | scope_private ↦ is_positive s.chat_id && permit chat_private s.chat_id s.chat_id ids
  | scope_group_member ↦
      not (is_positive s.chat_id)
      && is_positive s.user_id
      && permit chat_group s.chat_id s.user_id ids
]

-- Allowed chats whose ids pass a test.
abbrev AreAllowed : AccessList → (ℤ → Bool) → List ℤ → Type 0
AreAllowed ids test = All λ id. (allowed id ids ≡ true) × (test id ≡ true)
