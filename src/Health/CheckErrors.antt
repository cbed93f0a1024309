-- ===== src/Health/CheckErrors.antt =====
-- The errors of a check's run: `CheckError`, `CheckErrors` and `SplitErrors` of
-- pkg/health/check.go.
pub mod Leaves
pub mod Tests
use tgshd.Base.{String, List, [], ◌∷◌, ◌++◌, Bool, true, false, ◌==◌, text_eq, if◌then◌else◌}
use Prim.Native.String.{◌++◌ as join_text}

-- An error as the tree walker sees it: nil, a CheckError (its subject, kind and cause), an error that
-- unwraps to a list, one that unwraps to a single error, or any other, each with its own text.
mutual
  pub data GoError : Type 0 where
    nil_error : GoError
    check_error : String → String → GoError → GoError
    joined : String → Errors → GoError
    wrapped : String → GoError → GoError
    plain : String → GoError

  pub data Errors : Type 0 where
    no_errors : Errors
    more_errors : GoError → Errors → Errors

-- `CheckError.Key`.
unfoldable pub key : String → String → String → String
key check subject kind =
    if subject == ""
    then join_text check (join_text "/" kind)
    else join_text check (join_text "/" (join_text subject (join_text "/" kind)))

-- `CheckError.Error`, on the text of its cause.
unfoldable pub id_text : String → String → String
id_text subject kind = if subject == "" then kind else join_text subject (join_text "/" kind)

unfoldable pub error_text : String → String → GoError → String → String
unfolding id_text
error_text subject kind nil_error cause = id_text subject kind
error_text subject kind _ cause = join_text (id_text subject kind) (join_text ": " cause)

-- The end of `splitErrors` for an error that unwraps: whole, when nothing below it is a CheckError.
abbrev pub keep_whole : GoError → List GoError × List GoError → List GoError × List GoError
keep_whole e ([], sub) = ([], e ∷ [])
keep_whole e ((c ∷ checks), sub) = (c ∷ checks, sub)

-- `splitErrors`: the CheckErrors and the plain errors.
unfoldable mutual
  pub split_errors : GoError → List GoError × List GoError
  split_errors nil_error = ([], [])
  split_errors (check_error subject kind cause) = (check_error subject kind cause ∷ [], [])
  split_errors (joined text es) = keep_whole (joined text es) (split_all es)
  split_errors (wrapped text e) = keep_whole (wrapped text e) (split_errors e)
  split_errors (plain text) = ([], plain text ∷ [])

  pub split_all : Errors → List GoError × List GoError
  split_all no_errors = ([], [])
  split_all (more_errors e es) =
      let (checks, sub) = split_errors e in
      let (later_checks, later) = split_all es in (checks ++ later_checks, sub ++ later)

-- `CheckErrors`.
unfoldable pub check_errors : GoError → List GoError
check_errors e = (split_errors e).0
