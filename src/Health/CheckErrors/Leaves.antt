-- ===== src/Health/CheckErrors/Leaves.antt =====
-- The leaves of an error tree and what `SplitErrors` of pkg/health/check.go returns.
use tgshd.Base.{List, [], ◌∷◌, ◌++◌, Bool, true, false, ◌≡◌, refl, sym, ap, ◌∙◌, arith, select}
use mathlib.Core.List.{append-nil, append_assoc}
use tgshd.Health.CheckErrors.{
  GoError, nil_error, check_error, joined, wrapped, plain, Errors, no_errors, more_errors,
  keep_whole, split_errors, split_all,
}

-- The leaves of an error, depth first: its CheckErrors, which are not walked into, and the errors
-- that wrap nothing.
unfoldable mutual
  pub leaves : GoError → List GoError
  leaves nil_error = []
  leaves (check_error subject kind cause) = check_error subject kind cause ∷ []
  leaves (joined text es) = leaves_in es
  leaves (wrapped text e) = leaves e
  leaves (plain text) = plain text ∷ []

  pub leaves_in : Errors → List GoError
  leaves_in no_errors = []
  leaves_in (more_errors e es) = leaves e ++ leaves_in es

unfoldable pub all_leaves : List GoError → List GoError
all_leaves [] = []
all_leaves (e ∷ es) = leaves e ++ all_leaves es

abbrev pub is_check : GoError → Bool
is_check (check_error subject kind cause) = true
is_check _ = false

abbrev pub is_plain : GoError → Bool
is_plain (plain text) = true
is_plain _ = false

select-append {ℓ} :
    {A : Type ℓ} (p : A → Bool) (xs ys : List A) → select p (xs ++ ys) ≡ select p xs ++ select p ys
select-append p [] ys = refl
select-append p (x ∷ xs) ys = ground (arith, select-append p xs ys)

all_leaves-append : (xs ys : List GoError) → all_leaves (xs ++ ys) ≡ all_leaves xs ++ all_leaves ys
unfolding all_leaves
all_leaves-append [] ys = refl
all_leaves-append (x ∷ xs) ys =
    ap (λ z. leaves x ++ z) (all_leaves-append xs ys)
    ∙ sym (append_assoc (leaves x) (all_leaves xs) (all_leaves ys))

-- What the two results hold of the leaves below.
abbrev Splits : List GoError → List GoError × List GoError → Type 0
Splits below (checks, sub) =
    (checks ≡ select is_check below)
    × (select is_plain (all_leaves sub) ≡ select is_plain below)
    × (select is_check (all_leaves sub) ≡ [])

whole-Splits :
    (e : GoError) (below : List GoError) (r : List GoError × List GoError)
    → leaves e ≡ below
    → Splits below r
    → Splits below (keep_whole e r)
unfolding all_leaves
whole-Splits e below ([], sub) h s = (
  s.0,
  ap (select is_plain) (append-nil (leaves e) ∙ h),
  ap (select is_check) (append-nil (leaves e) ∙ h) ∙ sym s.0,
)
whole-Splits e below ((c ∷ checks), sub) h s = s

append-Splits :
    (xs ys : List GoError) (r q : List GoError × List GoError)
    → Splits xs r
    → Splits ys q
    → Splits (xs ++ ys) (r.0 ++ q.0, r.1 ++ q.1)
append-Splits xs ys r q s t = (
  rw (s.0, t.0) (sym (select-append is_check xs ys)),
  ap (select is_plain) (all_leaves-append r.1 q.1)
      ∙ select-append is_plain (all_leaves r.1) (all_leaves q.1)
      ∙ rw (s.1, t.1) (sym (select-append is_plain xs ys)),
  ap (select is_check) (all_leaves-append r.1 q.1)
      ∙ select-append is_check (all_leaves r.1) (all_leaves q.1)
      ∙ rw (s.2, t.2) refl,
)

mutual
  unfolding leaves split_errors all_leaves

  errors-Splits : (e : GoError) → Splits (leaves e) (split_errors e)
  errors-Splits nil_error = (refl, refl, refl)
  errors-Splits (check_error subject kind cause) = (refl, refl, refl)
  errors-Splits (joined text es) =
      whole-Splits (joined text es) (leaves_in es) (split_all es) refl (all-Splits es)
  errors-Splits (wrapped text e) =
      whole-Splits (wrapped text e) (leaves e) (split_errors e) refl (errors-Splits e)
  errors-Splits (plain text) = (refl, refl, refl)

  all-Splits : (es : Errors) → Splits (leaves_in es) (split_all es)
  all-Splits no_errors = (refl, refl, refl)
  all-Splits (more_errors e es) =
      append-Splits (leaves e) (leaves_in es) (split_errors e) (split_all es) (errors-Splits e)
        (all-Splits es)

pub split_errors-leaves :
    (e : GoError)
    → ((split_errors e).0 ≡ select is_check (leaves e))
      × (select is_plain (all_leaves (split_errors e).1) ≡ select is_plain (leaves e))
      × (select is_check (all_leaves (split_errors e).1) ≡ [])
split_errors-leaves e = errors-Splits e
