-- ===== src/Health/RateMarks/Export.antt =====
-- Export, restore and merge of the rate marks (pkg/health/ratelimit.go), key by key.
use tgshd.Base.{
  List, [], ◌∷◌, map, max, true, false, ◌≡◌, refl, ap, ◌∙◌, Option, none, some, arith, text_eq,
  if◌then◌else◌, lookup, lookup-insert, eq_iff, IsSorted, sort-IsSorted, text_leb_total, IsKeyed,
  find_key, last_key, Distinct, last_key-Distinct, sort-Distinct, or_else-none,
}
use tgshd.Health.Types.{Time}
use tgshd.Health.RateMarks.{
  RateKey, rate_key_eq, rate_key_beq_iff, RateMark, Marks, rate_mark_of, by_key_channel, export,
  key_of_mark, merge_one, merge, restore_onto, restore,
}

by_key_channel_total : (a b : RateMark) → by_key_channel a b ≡ false → by_key_channel b a ≡ true
by_key_channel_total a b h = ground (
  arith,
  eq_iff a.key b.key,
  eq_iff b.key a.key,
  text_leb_total a.key b.key,
  text_leb_total a.channel b.channel,
)

-- The time of an exported mark.
abbrev pub sent_at : Option RateMark → Option Time
sent_at none = none
sent_at (some m) = some m.last_sent_at

lookup-restore_onto :
    (k : RateKey) (ms : List RateMark) (marks : Marks) (d : Option RateMark)
    → lookup k marks ≡ sent_at d
    → lookup k (restore_onto ms marks) ≡ sent_at (last_key key_of_mark k ms d)
unfolding restore_onto last_key
lookup-restore_onto k [] marks d h = h
lookup-restore_onto k (m ∷ ms) marks d h = lookup-restore_onto k ms _ _ (
    ground (
      arith,
      rate_key_beq_iff (key_of_mark m) k,
      lookup-insert (key_of_mark m) k m.last_sent_at marks,
    ))

find_key-map :
    (k : RateKey) (marks : Marks)
    → sent_at (find_key key_of_mark k (map rate_mark_of marks)) ≡ lookup k marks
unfolding find_key lookup
find_key-map k [] = refl
find_key-map k ((j, at) ∷ marks) = ground (arith, rate_key_beq_iff j k, find_key-map k marks)

sent_at-none : (o : Option RateMark) → sent_at o ≡ none → o ≡ none
sent_at-none none h = refl
sent_at-none (some m) h = cc

map-Distinct : (marks : Marks) → IsKeyed marks → Distinct key_of_mark (map rate_mark_of marks)
map-Distinct [] h = tt
map-Distinct ((j, at) ∷ marks) h =
    (sent_at-none _ (find_key-map j marks ∙ h.0), map-Distinct marks h.1)

-- The export is sorted by key and channel, and restoring it gives back every mark.
pub restore-export :
    (marks : Marks) (k : RateKey)
    → IsKeyed marks
    → IsSorted by_key_channel (export marks) × (lookup k (restore (export marks)) ≡ lookup k marks)
unfolding export restore lookup
restore-export marks k h =
    let (same, distinct) =
      sort-Distinct key_of_mark by_key_channel (map rate_mark_of marks) (map-Distinct marks h) in
    (
      sort-IsSorted by_key_channel by_key_channel_total (map rate_mark_of marks),
      lookup-restore_onto k (export marks) [] none refl
          ∙ ap sent_at (
              last_key-Distinct key_of_mark k (export marks) none distinct
              ∙ or_else-none (find_key key_of_mark k (export marks))
              ∙ same k)
          ∙ find_key-map k marks,
    )

-- The later of two times of which each may be missing.
abbrev pub later_of : Option Time → Option Time → Option Time
later_of none b = b
later_of (some a) none = some a
later_of (some a) (some b) = some (max a b)

-- The latest time at which `ms` mark the key.
unfoldable pub latest : RateKey → List RateMark → Option Time
latest k [] = none
latest k (m ∷ ms) =
    if rate_key_eq.beq (key_of_mark m) k
    then later_of (some m.last_sent_at) (latest k ms)
    else latest k ms

lookup-merge_one :
    (m : RateMark) (marks : Marks) (k : RateKey)
    → lookup k (merge_one m marks) ≡ (
        if rate_key_eq.beq (key_of_mark m) k
        then later_of (lookup k marks) (some m.last_sent_at)
        else lookup k marks)
unfolding merge_one
lookup-merge_one m marks k = ground (
  arith,
  rate_key_beq_iff (key_of_mark m) k,
  lookup-insert (key_of_mark m) k m.last_sent_at marks,
)

later_of_assoc : (a b c : Option Time) → later_of (later_of a b) c ≡ later_of a (later_of b c)
later_of_assoc a b c = ground arith

-- Merging keeps, for each key and channel, the latest of the mark held and of those merged in.
pub lookup-merge_marks :
    (ms : List RateMark) (marks : Marks) (k : RateKey)
    → lookup k (merge ms marks) ≡ later_of (lookup k marks) (latest k ms)
unfolding merge latest
lookup-merge_marks [] marks k = ground arith
lookup-merge_marks (m ∷ ms) marks k =
    lookup-merge_marks ms (merge_one m marks) k
    ∙ ground (
      arith,
      lookup-merge_one m marks k,
      later_of_assoc (lookup k marks) (some m.last_sent_at) (latest k ms),
    )
