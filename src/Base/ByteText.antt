-- ===== src/Base/ByteText.antt =====
-- Go strings as lists of bytes, for code that cuts and compares parts of them. The functions are
-- those of Go's `strings` package that the code calls.
use Prim.Native.Nat.{ℕ}
use Prim.Native.Char.{code}
use Prim.Native.String.{String}
use mathlib.Core.Path.{◌≡◌, refl}
use mathlib.Core.Logic.{◌↔◌, inl, inr}
use mathlib.Core.Bool.{Bool, true, false, ◌&&◌}
use mathlib.Core.Option.{Option, none, some}
use mathlib.Core.List.{List, [], ◌∷◌, ◌++◌}
use native.Mathlib.Omega.{arith}
use tgshd.Base.Tests.{Eq, if◌then◌else◌, nat_beq, ltb, Bool-cases, Option-cases}
use tgshd.Base.Lists.{any}

abbrev pub Bytes : Type 0
Bytes = List ℕ

-- The bytes of an ASCII literal.
abbrev pub codes : String → Bytes
codes String.[] = []
codes (String.◌∷◌ c s) = code c ∷ codes s

abbrev pub bytes_beq : Bytes → Bytes → Bool
bytes_beq [] [] = true
bytes_beq [] (b ∷ t) = false
bytes_beq (a ∷ s) [] = false
bytes_beq (a ∷ s) (b ∷ t) = nat_beq a b && bytes_beq s t

pub bytes_beq_iff : (s t : Bytes) → (bytes_beq s t ≡ true) ↔ (s ≡ t)
bytes_beq_iff [] [] = ground arith
bytes_beq_iff [] (b ∷ t) = ground arith
bytes_beq_iff (a ∷ s) [] = ground arith
bytes_beq_iff (a ∷ s) (b ∷ t) = ground (arith, bytes_beq_iff s t)

instance abbrev pub bytes_eq : Eq Bytes
bytes_eq = record { beq = bytes_beq; beq_iff = bytes_beq_iff }

-- `s < t` on Go strings: byte by byte.
unfoldable pub bytes_ltb : Bytes → Bytes → Bool
bytes_ltb [] [] = false
bytes_ltb [] (b ∷ t) = true
bytes_ltb (a ∷ s) [] = false
bytes_ltb (a ∷ s) (b ∷ t) = if nat_beq a b then bytes_ltb s t else ltb a b

-- `strings.CutPrefix s prefix`.
unfoldable pub cut_prefix : Bytes → Bytes → Option Bytes
cut_prefix s [] = some s
cut_prefix [] (p ∷ ps) = none
cut_prefix (c ∷ s) (p ∷ ps) = if nat_beq c p then cut_prefix s ps else none

unfoldable pub has_prefix : Bytes → Bytes → Bool
unfolding cut_prefix
has_prefix s prefix = elim (cut_prefix s prefix) [ none ↦ false | some r ↦ true ]

-- `strings.HasSuffix s suffix` and `strings.CutSuffix s suffix`.
unfoldable pub cut_suffix : Bytes → Bytes → Option Bytes
cut_suffix [] suffix = if bytes_beq [] suffix then some [] else none
cut_suffix (c ∷ s) suffix =
    if bytes_beq (c ∷ s) suffix
    then some []
    else elim (cut_suffix s suffix) [ none ↦ none | some r ↦ some (c ∷ r) ]

unfoldable pub has_suffix : Bytes → Bytes → Bool
unfolding cut_suffix
has_suffix s suffix = elim (cut_suffix s suffix) [ none ↦ false | some r ↦ true ]

-- `strings.Trim s "/"` for a given byte.
unfoldable pub trim_left : ℕ → Bytes → Bytes
trim_left b [] = []
trim_left b (c ∷ s) = if nat_beq c b then trim_left b s else c ∷ s

abbrev cons_unless : ℕ → ℕ → Bytes → Bytes
cons_unless b c [] = if nat_beq c b then [] else c ∷ []
cons_unless b c (d ∷ s) = c ∷ d ∷ s

unfoldable pub trim_right : ℕ → Bytes → Bytes
trim_right b [] = []
trim_right b (c ∷ s) = cons_unless b c (trim_right b s)

unfoldable pub trim : ℕ → Bytes → Bytes
unfolding trim_left trim_right
trim b s = trim_right b (trim_left b s)

-- `s[strings.LastIndexByte(s, b)+1:]`: what follows the last `b`, or the whole text.
unfoldable pub after_last : ℕ → Bytes → Bytes
after_last b [] = []
after_last b (c ∷ s) =
    let rest = after_last b s in
    if any (λ d. nat_beq d b) s then rest else if nat_beq c b then s else c ∷ s

-- A prefix cut off and put back.
pub cut_prefix-append :
    (s prefix rest : Bytes) → cut_prefix s prefix ≡ some rest → s ≡ prefix ++ rest
unfolding cut_prefix
cut_prefix-append s [] rest h = ground arith
cut_prefix-append [] (p ∷ ps) rest h = cc
cut_prefix-append (c ∷ s) (p ∷ ps) rest h = ground (arith, cut_prefix-append s ps rest)

pub cut_suffix-append :
    (s suffix rest : Bytes) → cut_suffix s suffix ≡ some rest → s ≡ rest ++ suffix
unfolding cut_suffix
cut_suffix-append [] suffix rest h = ground (arith, bytes_beq_iff [] suffix)
cut_suffix-append (c ∷ s) suffix rest h = elim (Bool-cases (bytes_beq (c ∷ s) suffix)) [
  | inl e ↦ ground (arith, (bytes_beq_iff (c ∷ s) suffix).0 e)
  | inr e ↦ elim (Option-cases (cut_suffix s suffix)) [
    | inl f ↦ ground arith
    | inr (r, f) ↦ ground (arith, cut_suffix-append s suffix r f)
  ]
]

pub cut_prefix_self : (prefix rest : Bytes) → cut_prefix (prefix ++ rest) prefix ≡ some rest
unfolding cut_prefix
cut_prefix_self [] rest = refl
cut_prefix_self (p ∷ ps) rest = ground (arith, cut_prefix_self ps rest)

pub bytes_ltb_trans :
    (s t u : Bytes) → bytes_ltb s t ≡ true → bytes_ltb t u ≡ true → bytes_ltb s u ≡ true
unfolding bytes_ltb
bytes_ltb_trans [] [] u h k = cc
bytes_ltb_trans [] (b ∷ t) [] h k = cc
bytes_ltb_trans [] (b ∷ t) (c ∷ u) h k = refl
bytes_ltb_trans (a ∷ s) [] u h k = cc
bytes_ltb_trans (a ∷ s) (b ∷ t) [] h k = cc
bytes_ltb_trans (a ∷ s) (b ∷ t) (c ∷ u) h k = ground (arith, bytes_ltb_trans s t u)

pub bytes_ltb_irrefl : (s : Bytes) → bytes_ltb s s ≡ false
unfolding bytes_ltb
bytes_ltb_irrefl [] = refl
bytes_ltb_irrefl (a ∷ s) = ground (arith, bytes_ltb_irrefl s)

pub bytes_ltb_total : (s t : Bytes) → bytes_ltb s t ≡ false → bytes_ltb t s ≡ false → s ≡ t
unfolding bytes_ltb
bytes_ltb_total [] [] h k = refl
bytes_ltb_total [] (b ∷ t) h k = cc
bytes_ltb_total (a ∷ s) [] h k = cc
bytes_ltb_total (a ∷ s) (b ∷ t) h k = ground (arith, bytes_ltb_total s t)
