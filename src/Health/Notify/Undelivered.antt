-- ===== src/Health/Notify/Undelivered.antt =====
-- The dropped PROBLEMs listed ahead of the next message: `Undelivered` of
-- pkg/health/notify/channels.go. How times and numbers are written, and the JSON of the stored
-- list, are parameters.
pub mod Changes
pub mod Accounting
use tgshd.Base.{
  ℕ, suc, ℤ, pos, negsuc, ◌+◌, ◌-◌, min, String, List, [], ◌∷◌, ◌++◌, Bool, true, false, ◌&&◌,
  Bytes, codes, nat_beq, ltb, leb, if◌then◌else◌, length, take, drop, Option, none, some,
}
use tgshd.Health.Types.{Time}
use tgshd.Health.Notify.{Runes, QueuedMessage}
use tgshd.Health.Notify.Texts.{utf16_len, escape, truncate}

-- `UndeliveredProblem`.
pub record UndeliveredProblem : Type 0 where
  pub key : String
  pub text : Runes
  pub since : Time
  pub dropped_at : Time

-- `Undelivered`, and what a `Prefix` showed of it.
pub record Undelivered : Type 0 where
  pub items : List UndeliveredProblem
  pub folded : ℕ

pub record Shown : Type 0 where
  pub items : ℕ
  pub folded : ℕ

abbrev pub nothing_shown : Shown
nothing_shown = record { items = 0; folded = 0 }

-- `MaxUndelivered`, `maxUndeliveredText`.
abbrev pub max_undelivered : ℕ
max_undelivered = 50

abbrev pub max_undelivered_text : ℕ
max_undelivered_text = 256

-- `Undelivered.Add`.
unfoldable pub add : UndeliveredProblem → Undelivered → Undelivered
add p u =
    if leb max_undelivered (length u.items)
    then record u { folded = u.folded + 1 }
    else record u { items = u.items ++ (p ∷ []) }

-- `Undelivered.Empty`.
unfoldable pub is_empty : Undelivered → Bool
is_empty u = nat_beq (length u.items) 0 && nat_beq u.folded 0

abbrev pub newline : Runes
newline = 10 ∷ []

unfoldable pub header : Runes
header = codes "Undelivered earlier:" ++ newline

-- An early return with nothing to show.
abbrev pub unless : Bool → Runes × Shown → Runes × Shown
unless true r = ([], nothing_shown)
unless false r = r

module _ (itoa : ℕ → Runes) (format_since : Time → Time → Runes) where
  -- `undeliveredLine`.
  unfoldable pub undelivered_line : UndeliveredProblem → Time → Runes
  undelivered_line it now =
      let since =
        if nat_beq it.since 0
        then []
        else codes " (since " ++ format_since it.since now ++ codes ")" in
      codes "PROBLEM: " ++ escape it.text ++ escape since ++ codes ", no longer open" ++ newline

  -- The item lines of `Prefix`, as many as fit after the units used, and their number.
  unfoldable pub item_lines : ℕ → ℕ → Time → List UndeliveredProblem → Runes × ℕ
  item_lines limit used now [] = ([], 0)
  item_lines limit used now (it ∷ items) =
      let line = undelivered_line it now in
      let (lines, n) = item_lines limit (used + utf16_len line) now items in
      if ltb limit (used + utf16_len line) then ([], 0) else (line ++ lines, suc n)

  unfoldable pub tail_line : ℕ → Runes
  tail_line folded =
      if nat_beq folded 0
      then []
      else 8230 ∷ codes " and " ++ itoa folded ++ codes " more undelivered PROBLEMs" ++ newline

  -- `Undelivered.Prefix`.
  unfoldable pub prefix : ℕ → Time → Undelivered → Runes × Shown
  prefix limit now u =
      let tail = tail_line u.folded in
      let used = utf16_len header + utf16_len tail + utf16_len newline in
      let (lines, n) = item_lines limit used now u.items in
      unless (is_empty u) (
        unless (ltb limit used) (
          unless (nat_beq n 0 && nat_beq u.folded 0)
            (header ++ lines ++ tail ++ newline, record { items = n; folded = u.folded })))

-- `Undelivered.Ack`.
unfoldable pub ack : Shown → Undelivered → Undelivered
ack s u = record {
  items = drop (min s.items (length u.items)) u.items;
  folded = u.folded - s.folded;
}

-- `undeliveredFrom`; reading the text and since back from the rendered text is a parameter.
unfoldable pub undelivered_from :
    (QueuedMessage → Runes × Time) → Time → QueuedMessage → UndeliveredProblem
undelivered_from rendered_problem now item =
    let (text, since) =
      if nat_beq (length item.plain) 0 then rendered_problem item else (item.plain, item.since) in
    record {
      key = item.key;
      text = truncate max_undelivered_text text;
      since = since;
      dropped_at = now;
    }

-- A list cut to the maximum, the newest items counted as folded.
unfoldable pub fold_excess : Undelivered → Undelivered
fold_excess u = record {
  items = take max_undelivered u.items;
  folded = u.folded + (length u.items - max_undelivered);
}

-- `DecodeUndelivered` of the decoded items and count, which is read as an integer.
unfoldable pub decode_undelivered : List UndeliveredProblem → ℤ → Undelivered
unfolding fold_excess
decode_undelivered items (pos folded) = fold_excess (record { items = items; folded = folded })
decode_undelivered items (negsuc n) = fold_excess (record { items = items; folded = 0 })

-- `Notifier.RestoreUndelivered` of the stored list, where a send in progress shows `held` items.
unfoldable pub restore_undelivered : ℕ → Undelivered → Undelivered → Undelivered
unfolding fold_excess
restore_undelivered held stored u =
    let at = min held (length u.items) in
    fold_excess (record {
      items = take at u.items ++ stored.items ++ drop at u.items;
      folded = u.folded + stored.folded;
    })
