-- ===== src/Telegram/Access.antt =====
-- Who may command the bot and where its menu is published: access.go of pkg/telegram/route.
pub mod Menu
use tgshd.Base.{
  ℕ, ℤ, pos, negsuc, int_beq, int_leb, is_positive, is_zero_int, ◌++◌, List, [], ◌∷◌, Bool, true,
  false, not, ◌&&◌, if◌then◌else◌, any, map, select, sort,
}

-- `AccessList`: the set of allowed chats, each held once.
abbrev pub AccessList : Type 0
AccessList = List ℤ

-- `AccessList.Allowed`.
unfoldable pub allowed : ℤ → AccessList → Bool
allowed id ids = any (int_beq id) ids

-- An ID that is not zero, added to the set.
unfoldable pub admit : ℤ → AccessList → AccessList
admit id ids = if is_zero_int id then ids else if any (int_beq id) ids then ids else id ∷ ids

unfoldable pub admit_all : List ℤ → AccessList → AccessList
admit_all [] ids = ids
admit_all (id ∷ extra) ids = admit_all extra (admit id ids)

-- `NewAccessList`.
unfoldable pub new_access_list : ℤ → List ℤ → AccessList
unfolding admit_all
new_access_list chat_id extra = admit_all extra (admit chat_id [])

abbrev pub is_empty : AccessList → Bool
is_empty [] = true
is_empty (id ∷ ids) = false

pub data ChatKind : Type 0 where
  chat_channel chat_private chat_group : ChatKind
  -- Any other value of the source's int type.
  chat_other : ChatKind

-- `AccessList.Permit`.
unfoldable pub permit : ChatKind → ℤ → ℤ → AccessList → Bool
permit chat_channel chat_id sender_id ids = allowed chat_id ids
permit chat_private chat_id sender_id ids = allowed chat_id ids
permit chat_group chat_id sender_id ids = allowed chat_id ids && allowed sender_id ids
permit chat_other chat_id sender_id ids = false

pub data ScopeKind : Type 0 where
  scope_private scope_group_member : ScopeKind

pub record MenuScope : Type 0 where
  pub kind : ScopeKind
  pub chat_id : ℤ
  pub user_id : ℤ

abbrev pub private_scope : ℤ → MenuScope
private_scope u = record { kind = scope_private; chat_id = u; user_id = pos 0 }

abbrev pub member_scope : ℤ → ℤ → MenuScope
member_scope g u = record { kind = scope_group_member; chat_id = g; user_id = u }

unfoldable pub member_scopes : List ℤ → List ℤ → List MenuScope
member_scopes [] users = []
member_scopes (g ∷ groups) users = map (member_scope g) users ++ member_scopes groups users

abbrev pub users_of : AccessList → List ℤ
users_of ids = sort int_leb (select is_positive ids)

abbrev pub groups_of : AccessList → List ℤ
groups_of ids = sort int_leb (select (λ id. not (is_positive id)) ids)

-- `AccessList.MenuScopes`.
unfoldable pub menu_scopes : AccessList → List MenuScope
unfolding member_scopes
menu_scopes ids = map private_scope (users_of ids) ++ member_scopes (groups_of ids) (users_of ids)
