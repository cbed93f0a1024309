-- ===== src/Health/Notify/Texts.antt =====
-- The texts of messages: `render`, `truncate` and `utf16Len` of pkg/health/notify/notify.go, and
-- `html.EscapeString`. How a time is written is a parameter.
use tgshd.Base.{
  ℕ, ◌+◌, ◌-◌, ◌≤◌, ◌<◌, [], ◌∷◌, ◌++◌, true, false, ◌≡◌, ◌⊎◌, inl, inr, refl, sym, ap, ◌∙◌, arith,
  codes, nat_beq, ltb, leb, if◌then◌else◌, take, Bool-cases, leb→le, suc,
}
use mathlib.Core.List.{append_assoc}
use tgshd.Health.Types.{Time}
use tgshd.Health.Notify.{
  Runes, MessageKind, kind_problem, kind_resolved, kind_event, Message, max_message_units,
}

-- `utf16.RuneLen` of a valid rune.
unfoldable pub rune_units : ℕ → ℕ
rune_units c = if leb 65_536 c then 2 else 1

-- `utf16Len`.
unfoldable pub utf16_len : Runes → ℕ
utf16_len [] = 0
utf16_len (c ∷ s) = rune_units c + utf16_len s

-- `html.EscapeString`.
unfoldable pub escape_rune : ℕ → Runes
escape_rune c =
    if nat_beq c 38
    then codes "&amp;"
    else if nat_beq c 39
    then codes "&#39;"
    else if nat_beq c 60
    then codes "&lt;"
    else if nat_beq c 62
    then codes "&gt;"
    else if nat_beq c 34
    then codes "&#34;"
    else c ∷ []

unfoldable pub escape : Runes → Runes
escape [] = []
escape (c ∷ s) = escape_rune c ++ escape s

abbrev pub ellipsis : Runes
ellipsis = 8230 ∷ []

-- The loop of `truncate`, with the units used so far.
unfoldable pub cut : ℕ → ℕ → Runes → Runes
cut limit used [] = []
cut limit used (c ∷ s) =
    let next = used + utf16_len (escape_rune c) in
    let rest = cut limit next s in if ltb limit next then ellipsis else c ∷ rest

-- `truncate`; a limit below one is 0.
unfoldable pub truncate : ℕ → Runes → Runes
truncate limit s =
    if ltb limit 1
    then ellipsis
    else if leb (utf16_len (escape s)) limit
    then s
    else cut limit (utf16_len ellipsis) s

-- The label and the suffix that `render` gives a kind.
unfoldable pub label_of : MessageKind → Runes
label_of kind_problem = codes "PROBLEM: "
label_of kind_resolved = codes "RESOLVED: "
label_of kind_event = []

module _ (since_text : Time → Runes) where
  unfoldable pub suffix_of : MessageKind → Time → Runes
  suffix_of kind_problem since =
      if nat_beq since 0 then [] else codes " (since " ++ since_text since ++ codes ")"
  suffix_of kind_resolved since = []
  suffix_of kind_event since = []

  -- `Notifier.render`: the plain and the HTML text.
  unfoldable pub render : Runes → Message → Runes × Runes
  render host msg =
      let prefix = host ++ codes ": " in
      let rich_prefix = escape (prefix ++ label_of msg.kind) in
      let rich_suffix = escape (suffix_of msg.kind msg.since) in
      let budget = max_message_units - utf16_len rich_prefix - utf16_len rich_suffix in
      let text = truncate budget msg.text in
      (
        prefix ++ label_of msg.kind ++ text ++ suffix_of msg.kind msg.since,
        rich_prefix ++ escape text ++ rich_suffix,
      )

pub utf16_len-append : (s t : Runes) → utf16_len (s ++ t) ≡ utf16_len s + utf16_len t
unfolding utf16_len
utf16_len-append [] t = omega arith
utf16_len-append (c ∷ s) t = omega (arith, utf16_len-append s t)

utf16_len-ellipsis : utf16_len (escape ellipsis) ≡ 1
unfolding utf16_len escape escape_rune rune_units
utf16_len-ellipsis = refl

plain_ellipsis : utf16_len ellipsis ≡ 1
unfolding utf16_len rune_units
plain_ellipsis = refl

not_over : (a b : ℕ) → ltb a b ≡ false → b ≤ a
not_over a b h = ground (arith, h)

utf16_len-cut :
    (limit used : ℕ) (s : Runes)
    → used ≤ limit
    → utf16_len (escape (cut limit used s)) + used ≤ limit + 1
unfolding cut utf16_len escape
utf16_len-cut limit used [] h = omega arith
utf16_len-cut limit used (c ∷ s) h =
    elim (Bool-cases (ltb limit (used + utf16_len (escape_rune c)))) [
      | inl e ↦ rw e (omega (arith, utf16_len-ellipsis))
      | inr e ↦ rw e (
          omega (
            arith,
            utf16_len-append (escape_rune c)
                (escape (cut limit (used + utf16_len (escape_rune c)) s)),
            utf16_len-cut limit (used + utf16_len (escape_rune c)) s
                (not_over limit (used + utf16_len (escape_rune c)) e),
          ))
    ]

-- A text cut to a limit is, escaped as it is sent, at most that many UTF-16 code units long.
pub truncate-fits :
    (limit : ℕ) (s : Runes) → 1 ≤ limit → utf16_len (escape (truncate limit s)) ≤ limit
unfolding truncate
truncate-fits limit s h = elim (Bool-cases (ltb limit 1)) [
  | inl e ↦ absurd_of limit e h
  | inr e ↦ rw e (elim (Bool-cases (leb (utf16_len (escape s)) limit)) [
    | inl f ↦ rw f (leb→le (utf16_len (escape s)) limit f)
    | inr f ↦ rw f (cut_fits limit s h)
  ])
]
  where
    absurd_of :
        (limit : ℕ) → ltb limit 1 ≡ true → 1 ≤ limit → utf16_len (escape (truncate limit s)) ≤ limit
    absurd_of limit e h = ground (arith, e, h)

    cut_fits :
        (limit : ℕ) (s : Runes)
        → 1 ≤ limit
        → utf16_len (escape (cut limit (utf16_len ellipsis) s)) ≤ limit
    cut_fits limit s h = rw plain_ellipsis (omega (arith, utf16_len-cut limit 1 s h))

pub escape-append : (s t : Runes) → escape (s ++ t) ≡ escape s ++ escape t
unfolding escape
escape-append [] t = refl
escape-append (c ∷ s) t =
    ap (λ z. escape_rune c ++ z) (escape-append s t)
    ∙ sym (append_assoc (escape_rune c) (escape s) (escape t))

-- What the cut keeps: a first part of the text and the ellipsis, or the whole text.
abbrev pub IsCut : Runes → Runes → Type 0
IsCut s t = (t ≡ s) ⊎ ((n : ℕ) × (t ≡ take n s ++ ellipsis))

cut-IsCut : (limit used : ℕ) (s : Runes) → IsCut s (cut limit used s)
unfolding cut
cut-IsCut limit used [] = inl refl
cut-IsCut limit used (c ∷ s) = elim (Bool-cases (ltb limit (used + utf16_len (escape_rune c)))) [
  | inl e ↦ rw e (inr (0, refl))
  | inr e ↦ rw e (
      with_head c s (cut limit (used + utf16_len (escape_rune c)) s)
        (cut-IsCut limit (used + utf16_len (escape_rune c)) s))
]
  where
    with_head : (c : ℕ) (s t : Runes) → IsCut s t → IsCut (c ∷ s) (c ∷ t)
    with_head c s t (inl e) = inl (ap (λ z. c ∷ z) e)
    with_head c s t (inr (n, e)) = inr (suc n, ap (λ z. c ∷ z) e)

-- A cut text is a first part of the text and the ellipsis, and a text that fits is left whole.
pub truncate-IsCut : (limit : ℕ) (s : Runes) → IsCut s (truncate limit s)
unfolding truncate
truncate-IsCut limit s = elim (Bool-cases (ltb limit 1)) [
  | inl e ↦ rw e (inr (0, refl))
  | inr e ↦ rw e (elim (Bool-cases (leb (utf16_len (escape s)) limit)) [
    | inl f ↦ rw f (inl refl)
    | inr f ↦ rw f (cut-IsCut limit (utf16_len ellipsis) s)
  ])
]

fits_between :
    (p q text : Runes) (m : ℕ)
    → utf16_len p + utf16_len q < m
    → utf16_len (p ++ escape (truncate (m - utf16_len p - utf16_len q) text) ++ q) ≤ m
fits_between p q text m h =
    let budget = m - utf16_len p - utf16_len q in
    omega (
      arith,
      h,
      utf16_len-append (p ++ escape (truncate budget text)) q,
      utf16_len-append p (escape (truncate budget text)),
      truncate-fits budget text (omega (arith, h)),
    )

-- The HTML text of a message is at most 4096 UTF-16 code units long, whatever its text, provided
-- that the host prefix with the label and the suffix leave room for one unit.
pub render-fits :
    (since_text : Time → Runes) (host : Runes) (msg : Message)
    → utf16_len (escape (host ++ codes ": " ++ label_of msg.kind))
        + utf16_len (escape (suffix_of since_text msg.kind msg.since))
      < max_message_units
    → utf16_len (render since_text host msg).1 ≤ max_message_units
unfolding render
render-fits since_text host msg h =
    fits_between (escape (host ++ codes ": " ++ label_of msg.kind))
      (escape (suffix_of since_text msg.kind msg.since)) msg.text max_message_units h
