-- ===== src/Health/Store/Snapshots.antt =====
-- What the pending snapshot holds after snapshots were folded into it: `checkpointer.merge` of
-- pkg/health/store/state.go.
use tgshd.Base.{
  String, List, [], ◌∷◌, ◌++◌, ◌≡◌, refl, sym, ap, ◌∙◌, arith, Option, some, text_eq, ◌==◌, eq_iff,
  if◌then◌else◌, lookup, insert, lookup-insert, find_key, last_key, Distinct, IsKeyed,
  insert-IsKeyed,
}
use tgshd.Health.Store.{Baseline, State, Checkpointer, put_baseline, put_baselines, copy_kv, merge}

abbrev pub serial_of : Baseline → String
serial_of b = b.serial

find_key-put_baseline :
    (k : String) (b : Baseline) (known : List Baseline)
    → find_key serial_of k (put_baseline b known)
      ≡ (if b.serial == k then some b else find_key serial_of k known)
unfolding find_key put_baseline
find_key-put_baseline k b [] = refl
find_key-put_baseline k b (c ∷ known) = ground (
  arith,
  eq_iff b.serial k,
  eq_iff c.serial k,
  eq_iff c.serial b.serial,
  find_key-put_baseline k b known,
)

find_key-put_baselines :
    (k : String) (bs known : List Baseline)
    → find_key serial_of k (put_baselines bs known)
      ≡ last_key serial_of k bs (find_key serial_of k known)
unfolding put_baselines last_key
find_key-put_baselines k [] known = refl
find_key-put_baselines k (b ∷ bs) known =
    find_key-put_baselines k bs (put_baseline b known)
    ∙ ap (last_key serial_of k bs) (find_key-put_baseline k b known)

put_baseline-Distinct :
    (b : Baseline) (known : List Baseline)
    → Distinct serial_of known
    → Distinct serial_of (put_baseline b known)
unfolding find_key put_baseline
put_baseline-Distinct b [] v = (refl, tt)
put_baseline-Distinct b (c ∷ known) v = ground (
  arith,
  eq_iff c.serial b.serial,
  eq_iff b.serial c.serial,
  find_key-put_baseline c.serial b known,
  put_baseline-Distinct b known v.1,
)

put_baselines-Distinct :
    (bs known : List Baseline)
    → Distinct serial_of known
    → Distinct serial_of (put_baselines bs known)
unfolding put_baselines
put_baselines-Distinct [] known v = v
put_baselines-Distinct (b ∷ bs) known v =
    put_baselines-Distinct bs (put_baseline b known) (put_baseline-Distinct b known v)

-- The last value of a key.
unfoldable pub last_value : String → List (String × String) → Option String → Option String
last_value k [] d = d
last_value k ((j, v) ∷ rest) d = last_value k rest (if j == k then some v else d)

lookup-copy_kv :
    (k : String) (new kv : List (String × String))
    → lookup k (copy_kv new kv) ≡ last_value k new (lookup k kv)
unfolding copy_kv last_value
lookup-copy_kv k [] kv = refl
lookup-copy_kv k ((j, v) ∷ new) kv =
    lookup-copy_kv k new (insert j v kv) ∙ ap (last_value k new) (lookup-insert j k v kv)

-- The snapshots folded in one after the other.
unfoldable pub merge_all : List State → Checkpointer → Checkpointer
merge_all [] c = c
merge_all (st ∷ states) c = merge_all states (merge st c)

abbrev pub all_baselines : List State → List Baseline
all_baselines [] = []
all_baselines (st ∷ states) = st.baselines ++ all_baselines states

abbrev pub all_kv : List State → List (String × String)
all_kv [] = []
all_kv (st ∷ states) = st.kv ++ all_kv states

last_key-append :
    (k : String) (xs ys : List Baseline) (d : Option Baseline)
    → last_key serial_of k (xs ++ ys) d ≡ last_key serial_of k ys (last_key serial_of k xs d)
unfolding last_key
last_key-append k [] ys d = refl
last_key-append k (x ∷ xs) ys d = last_key-append k xs ys (if x.serial == k then some x else d)

last_value-append :
    (k : String) (xs ys : List (String × String)) (d : Option String)
    → last_value k (xs ++ ys) d ≡ last_value k ys (last_value k xs d)
unfolding last_value
last_value-append k [] ys d = refl
last_value-append k ((j, v) ∷ xs) ys d = last_value-append k xs ys (if j == k then some v else d)

merge_all-from :
    (states : List State) (c : Checkpointer) (k : String)
    → (find_key serial_of k (merge_all states c).pending.baselines
        ≡ last_key serial_of k (all_baselines states) (find_key serial_of k c.pending.baselines))
      × (lookup k (merge_all states c).pending.kv
          ≡ last_value k (all_kv states) (lookup k c.pending.kv))
unfolding merge_all merge last_key last_value
merge_all-from [] c k = (refl, refl)
merge_all-from (st ∷ states) c k =
    let rest = merge_all-from states (merge st c) k in
    (
      rest.0
          ∙ ap (last_key serial_of k (all_baselines states))
              (find_key-put_baselines k st.baselines c.pending.baselines)
          ∙ sym (
              last_key-append k st.baselines (all_baselines states)
                (find_key serial_of k c.pending.baselines)),
      rest.1
          ∙ ap (last_value k (all_kv states)) (lookup-copy_kv k st.kv c.pending.kv)
          ∙ sym (last_value-append k st.kv (all_kv states) (lookup k c.pending.kv)),
    )

-- Folding snapshots while nothing can be written: the baseline of a serial and the value of a key
-- are the last that any of them gave, else what was pending before, whichever snapshots left them
-- out; and the conditions, the rate marks and the queue are those of the last snapshot alone.
pub merge_all-last :
    (states : List State) (latest : State) (c : Checkpointer) (k : String)
    → (find_key serial_of k (merge latest (merge_all states c)).pending.baselines
        ≡ last_key serial_of k latest.baselines (
            last_key serial_of k (all_baselines states) (find_key serial_of k c.pending.baselines)))
      × (lookup k (merge latest (merge_all states c)).pending.kv
          ≡ last_value k latest.kv (last_value k (all_kv states) (lookup k c.pending.kv)))
      × ((merge latest (merge_all states c)).pending.conditions ≡ latest.conditions)
      × ((merge latest (merge_all states c)).pending.rate_marks ≡ latest.rate_marks)
      × ((merge latest (merge_all states c)).pending.queue ≡ latest.queue)
unfolding merge
merge_all-last states latest c k =
    let before = merge_all-from states c k in
    let pending = (merge_all states c).pending in
    (
      find_key-put_baselines k latest.baselines pending.baselines
          ∙ ap (last_key serial_of k latest.baselines) before.0,
      lookup-copy_kv k latest.kv pending.kv ∙ ap (last_value k latest.kv) before.1,
      refl,
      refl,
      refl,
    )

copy_kv-IsKeyed : (new kv : List (String × String)) → IsKeyed kv → IsKeyed (copy_kv new kv)
unfolding copy_kv
copy_kv-IsKeyed [] kv h = h
copy_kv-IsKeyed ((k, v) ∷ new) kv h = copy_kv-IsKeyed new (insert k v kv) (insert-IsKeyed k v kv h)

-- The pending snapshot holds each serial and each key once.
abbrev pub IsPending : Checkpointer → Type 0
IsPending c = Distinct serial_of c.pending.baselines × IsKeyed c.pending.kv

-- Folding in a snapshot keeps each serial and each key of the pending one single, also when the
-- snapshot gives one twice.
pub merge-IsPending : (st : State) (c : Checkpointer) → IsPending c → IsPending (merge st c)
unfolding merge
merge-IsPending st c h = (
  put_baselines-Distinct st.baselines c.pending.baselines h.0,
  copy_kv-IsKeyed st.kv c.pending.kv h.1,
)
