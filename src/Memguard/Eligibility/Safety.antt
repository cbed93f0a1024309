-- ===== src/Memguard/Eligibility/Safety.antt =====
-- The services that `Config.Service` of pkg/health/memguard/guard.go accepts, against the words of its
-- comment.
use tgshd.Base.{
  List, [], ◌∷◌, ◌++◌, Bool, true, false, ◌&&◌, ◌||◌, ◌≡◌, ◌≢◌, refl, some, arith, inl, inr, ◌⊎◌,
  any, Bytes, codes, bytes_beq_iff, cut_prefix, cut_prefix-append, cut_prefix_self, cut_suffix,
  has_suffix, cut_suffix-append, trim, after_last, All, Option-cases, Bool-cases,
}
use tgshd.Memguard.Types.{Kind, unit, kind_beq, Config}
use tgshd.Memguard.Eligibility.{
  is_service_cgroup, holds_self, is_core_unit, holds_from, begins_with_slash, never_touch,
  names_service, service_of, matches_short,
}

-- A cgroup below system.slice whose last element is a service or a scope.
pub record IsServicePath (path : Bytes) : Type 0 where
  pub rest : Bytes
  pub below : path ≡ codes "system.slice/" ++ rest
  pub name : Bytes
  pub element :
      (after_last b'/' rest ≡ name ++ codes ".service")
      ⊎ (after_last b'/' rest ≡ name ++ codes ".scope")

suffix_of : (s suffix : Bytes) → has_suffix s suffix ≡ true → (r : Bytes) × (s ≡ r ++ suffix)
unfolding has_suffix
suffix_of s suffix h = elim (Option-cases (cut_suffix s suffix)) [
  | inl e ↦ absurd (ground arith)
  | inr (r, e) ↦ (r, cut_suffix-append s suffix r e)
]

is_service_cgroup-IsServicePath :
    (path : Bytes) → is_service_cgroup path ≡ true → IsServicePath path
unfolding is_service_cgroup
is_service_cgroup-IsServicePath path h =
    elim (Option-cases (cut_prefix path (codes "system.slice/"))) [
      | inl e ↦ absurd (ground arith)
      | inr (rest, e) ↦ elim (Bool-cases (has_suffix (after_last b'/' rest) (codes ".service"))) [
        | inl s ↦
            let (name, same) = suffix_of (after_last b'/' rest) (codes ".service") s in
            record {
              rest = rest;
              below = cut_prefix-append path (codes "system.slice/") rest e;
              name = name;
              element = inl same;
            }
        | inr s ↦
            let scope : has_suffix (after_last b'/' rest) (codes ".scope") ≡ true = ground arith in
            let (name, same) = suffix_of (after_last b'/' rest) (codes ".scope") scope in
            record {
              rest = rest;
              below = cut_prefix-append path (codes "system.slice/") rest e;
              name = name;
              element = inr same;
            }
      ]
    ]

-- tgshd's own cgroup is neither the path nor anything below it.
abbrev pub IsForeign : Bytes → Bytes → Type 0
IsForeign self path = self ≢ [] → (self ≢ path) × ((rest : Bytes) → self ≢ path ++ b'/' ∷ rest)

cut_prefix_all : (path : Bytes) → cut_prefix path path ≡ some []
unfolding cut_prefix
cut_prefix_all [] = refl
cut_prefix_all (c ∷ s) = ground (arith, cut_prefix_all s)

begins_with_slash_of_cut :
    (self path rest : Bytes)
    → self ≢ []
    → holds_from self path ≡ false
    → cut_prefix self path ≡ some rest
    → begins_with_slash rest ≡ false
unfolding holds_from
begins_with_slash_of_cut self path rest filled h e = ground (arith, bytes_beq_iff self [])

holds_from-IsForeign : (self path : Bytes) → holds_from self path ≡ false → IsForeign self path
holds_from-IsForeign self path h filled = (
  λ e. absurd (
      true_is_not_false
        (begins_with_slash_of_cut self path [] filled h (rw e (cut_prefix_all path)))),
  λ rest e. absurd (
      true_is_not_false (
        begins_with_slash_of_cut self path (b'/' ∷ rest) filled h
          (rw e (cut_prefix_self path (b'/' ∷ rest))))),
)
  where
    true_is_not_false : ◌≡◌ {A = Bool} true false → ⊥
    true_is_not_false e = cc

-- No entry of never_touch names the service: by its name, or for a unit by its name without
-- ".service".
abbrev pub Untouched : (Bytes → Bytes → Bool) → Kind → Bytes → List Bytes → Type 0
Untouched path_match kind name = All λ entry.
    (path_match entry name ≡ false)
    × ((short : Bytes)
        → kind ≡ unit
        → cut_suffix name (codes ".service") ≡ some short
        → path_match entry short ≡ false)

never_touch-Untouched :
    (path_match : Bytes → Bytes → Bool) (kind : Kind) (name : Bytes) (entries : List Bytes)
    → any (names_service path_match kind name) entries ≡ false
    → Untouched path_match kind name entries
never_touch-Untouched path_match kind name [] h = tt
never_touch-Untouched path_match kind name (entry ∷ rest) h =
    let (here, later) = or_false (names_service path_match kind name entry) _ h in
    let (whole, short) = or_false (path_match entry name) _ here in
    ((whole, λ s k e. short_of s k e short), never_touch-Untouched path_match kind name rest later)
  where
    or_false : (a b : Bool) → (a || b) ≡ false → (a ≡ false) × (b ≡ false)
    or_false a b e = ground arith

    short_of :
        (s : Bytes)
        → kind ≡ unit
        → cut_suffix name (codes ".service") ≡ some s
        → matches_short path_match kind (cut_suffix name (codes ".service")) entry ≡ false
        → path_match entry s ≡ false
    short_of s k e f = rw (k, e) at f

eligible_tests :
    (path_match : Bytes → Bytes → Bool) (c : Config) (kind : Kind) (name path : Bytes)
    → (service_of path_match c kind name path).eligible ≡ true
    → (is_service_cgroup (trim b'/' path) ≡ true)
      × (holds_self c (trim b'/' path) ≡ false)
      × ((kind_beq kind unit && is_core_unit name) ≡ false)
      × (never_touch path_match c kind name ≡ false)
      × ((service_of path_match c kind name path).is_protected ≡ false)
unfolding service_of
eligible_tests path_match c kind name path h = ground arith

-- A service that the guard may act on is a service or a scope below system.slice, is not tgshd's
-- own cgroup nor one that holds it, is not a core unit, is named by no entry of never_touch, and
-- is not reported as protected.
pub service_of-eligible :
    (path_match : Bytes → Bytes → Bool) (c : Config) (kind : Kind) (name path : Bytes)
    → (service_of path_match c kind name path).eligible ≡ true
    → IsServicePath (trim b'/' path)
      × IsForeign (trim b'/' c.self_cgroup) (trim b'/' path)
      × (kind ≡ unit → is_core_unit name ≡ false)
      × Untouched path_match kind name c.never_touch
      × ((service_of path_match c kind name path).is_protected ≡ false)
unfolding never_touch holds_self
service_of-eligible path_match c kind name path h =
    let (cgroup, foreign, core, touched, unprotected) =
      eligible_tests path_match c kind name path h in
    (
      is_service_cgroup-IsServicePath (trim b'/' path) cgroup,
      holds_from-IsForeign (trim b'/' c.self_cgroup) (trim b'/' path) foreign,
      λ k. core_of k core,
      never_touch-Untouched path_match kind name c.never_touch touched,
      unprotected,
    )
  where
    core_of :
        kind ≡ unit → (kind_beq kind unit && is_core_unit name) ≡ false → is_core_unit name ≡ false
    core_of k core = rw k at core
