-- ===== src/Health/CheckErrors/Tests.antt =====
-- An error tree split.
use tgshd.Health.CheckErrors.{
  GoError, nil_error, check_error, joined, wrapped, plain, no_errors, more_errors,
}

abbrev tree : GoError
tree = joined "2 errors" (
    more_errors (wrapped "sda" (check_error "sda" "unreadable" (plain "I/O error")))
      (more_errors (wrapped "list" (plain "no drives")) (more_errors nil_error no_errors)))
