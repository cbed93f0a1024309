-- ===== src/Health/Store/Encoding.antt =====
-- A concrete encoding of numbers, texts and rate marks that reads back: an instance of what the
-- store and the schedule rely on of encoding/json and strconv, for the tests.
use tgshd.Base.{
  ℕ, zero, suc, ℤ, pos, negsuc, String, List, [], ◌∷◌, ◌≡◌, refl, Option, some, length, nat_beq,
  if◌then◌else◌,
}
use Prim.Native.Char.{code}
use tgshd.Health.Store.Database.{RateMarkJson}

abbrev put_nat : ℕ → String → String
put_nat zero s = String.◌∷◌ "0" s
put_nat (suc n) s = String.◌∷◌ "1" (put_nat n s)

abbrev read_nat : String → ℕ × String
read_nat String.[] = (0, String.[])
read_nat (String.◌∷◌ c s) =
    let r = read_nat s in if nat_beq (code c) 49 then (suc r.0, r.1) else (0, s)

read_nat-put_nat : (n : ℕ) (s : String) → read_nat (put_nat n s) ≡ (n, s)
read_nat-put_nat zero s = refl
read_nat-put_nat (suc n) s = rw (read_nat-put_nat n s) refl

abbrev put_int : ℤ → String → String
put_int (pos n) s = String.◌∷◌ "1" (put_nat n s)
put_int (negsuc n) s = String.◌∷◌ "0" (put_nat n s)

abbrev read_int : String → ℤ × String
read_int String.[] = (pos 0, String.[])
read_int (String.◌∷◌ c s) =
    let r = read_nat s in if nat_beq (code c) 49 then (pos r.0, r.1) else (negsuc r.0, r.1)

read_int-put_int : (n : ℤ) (s : String) → read_int (put_int n s) ≡ (n, s)
read_int-put_int (pos n) s = rw (read_nat-put_nat n s) refl
read_int-put_int (negsuc n) s = rw (read_nat-put_nat n s) refl

abbrev put_text : String → String → String
put_text String.[] s = String.◌∷◌ "0" s
put_text (String.◌∷◌ c t) s = String.◌∷◌ "1" (String.◌∷◌ c (put_text t s))

abbrev read_text : String → String × String
read_text String.[] = (String.[], String.[])
read_text (String.◌∷◌ c String.[]) = (String.[], String.[])
read_text (String.◌∷◌ c (String.◌∷◌ d s)) =
    let r = read_text s in
    if nat_beq (code c) 49 then (String.◌∷◌ d r.0, r.1) else (String.[], String.◌∷◌ d s)

read_text-put_text : (t s : String) → read_text (put_text t s) ≡ (t, s)
read_text-put_text String.[] String.[] = refl
read_text-put_text String.[] (String.◌∷◌ d s) = refl
read_text-put_text (String.◌∷◌ c t) s = rw (read_text-put_text t s) refl

abbrev pub format_int : ℤ → String
format_int n = put_int n String.[]

abbrev pub parse_int : String → Option ℤ
parse_int s = some (read_int s).0

pub parse_int-format_int : (n : ℤ) → parse_int (format_int n) ≡ some n
parse_int-format_int n = rw (read_int-put_int n String.[]) refl

abbrev put_marks : List RateMarkJson → String
put_marks [] = String.[]
put_marks (m ∷ ms) = put_text m.key (put_text m.channel (put_int m.at (put_marks ms)))

abbrev read_marks : ℕ → String → List RateMarkJson
read_marks zero s = []
read_marks (suc n) s =
    let k = read_text s in
    let c = read_text k.1 in
    let a = read_int c.1 in record { key = k.0; channel = c.0; at = a.0 } ∷ read_marks n a.1

read_marks-put_marks : (ms : List RateMarkJson) → read_marks (length ms) (put_marks ms) ≡ ms
read_marks-put_marks [] = refl
read_marks-put_marks (m ∷ ms) =
    rw
      (
        read_text-put_text m.key (put_text m.channel (put_int m.at (put_marks ms))),
        read_text-put_text m.channel (put_int m.at (put_marks ms)),
        read_int-put_int m.at (put_marks ms),
        read_marks-put_marks ms,
      )
      refl

abbrev pub marshal : List RateMarkJson → String
marshal ms = put_nat (length ms) (put_marks ms)

abbrev pub unmarshal : String → Option (List RateMarkJson)
unmarshal s = some (read_marks (read_nat s).0 (read_nat s).1)

pub unmarshal-marshal : (ms : List RateMarkJson) → unmarshal (marshal ms) ≡ some ms
unmarshal-marshal ms =
    rw (read_nat-put_nat (length ms) (put_marks ms), read_marks-put_marks ms) refl
