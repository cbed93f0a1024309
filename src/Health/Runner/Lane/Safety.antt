-- ===== src/Health/Runner/Lane/Safety.antt =====
-- The lane of pkg/health/runner/deliver.go under the steps of its callers and sends.
use tgshd.Base.{
  ℕ, ◌+◌, ◌≤◌, List, [], ◌∷◌, Bool, true, false, not, ◌&&◌, ◌||◌, ◌≡◌, refl, sym, ap, subst, ◌∙◌,
  arith, nat_beq, if◌then◌else◌, length,
}
use tgshd.Health.Runner.Lane.{
  Lane, refused, taken, acquire_as, acquire, release, mark_abandoned, abandon, World, start, has,
  without, Step, takes, returns, gives_up, Reach, here, next,
}

-- The send in progress is the one that holds the lane, and an abandoned lane's own send was given
-- up by its caller.
abbrev pub IsConsistent : World → Type 0
IsConsistent w =
    (w.running ≡ (if w.lane.in_flight then w.lane.seq ∷ [] else []))
    × (not w.lane.abandoned || (w.lane.in_flight && has w.lane.seq w.given_up) ≡ true)

taken-cases :
    (a f : Bool) (seq n : ℕ) (l : Lane)
    → acquire_as a f seq ≡ taken n l
    → (f ≡ false)
      × (n ≡ seq + 1)
      × (l ≡ record { in_flight = true; abandoned = false; seq = seq + 1 })
unfolding acquire_as
taken-cases true f seq n l h = cc
taken-cases false true seq n l h = cc
taken-cases false false seq n l h = (refl, cc, cc)

abbrev FitsLane : Lane → List ℕ → List ℕ → Type 0
FitsLane l running given_up =
    (running ≡ (if l.in_flight then l.seq ∷ [] else []))
    × (not l.abandoned || (l.in_flight && has l.seq given_up) ≡ true)

free_lane :
    (f : Bool) (seq : ℕ) (xs : List ℕ) → f ≡ false → xs ≡ (if f then seq ∷ [] else []) → xs ≡ []
free_lane true seq xs e h = cc
free_lane false seq xs e h = h

takes-FitsLane :
    (a f : Bool) (seq n : ℕ) (l : Lane) (running given_up : List ℕ)
    → acquire_as a f seq ≡ taken n l
    → running ≡ (if f then seq ∷ [] else [])
    → FitsLane l (n ∷ running) given_up
takes-FitsLane a f seq n l running given_up h r =
    let parts = taken-cases a f seq n l h in
    subst (λ l. FitsLane l (n ∷ running) given_up) (sym parts.2)
      (rw (parts.1, free_lane f seq running parts.0 r) refl, refl)

without-own :
    (f : Bool) (seq n : ℕ) (xs : List ℕ)
    → has n xs ≡ true
    → xs ≡ (if f then seq ∷ [] else [])
    → without n xs ≡ []
unfolding without
without-own true seq n xs h e = ap (without n) e ∙ one_left seq n (sym (ap (has n) e) ∙ h)
  where
    one_left : (seq n : ℕ) → has n (seq ∷ []) ≡ true → without n (seq ∷ []) ≡ []
    one_left seq n h = ground (arith, h)
without-own false seq n xs h e = absurd_of (sym (ap (has n) e) ∙ h)
  where
    absurd_of : false ≡ true → without n xs ≡ []
    absurd_of h = cc

own_abandoned : (f a h r : Bool) → f && h ≡ true → not true || (f && (h || r)) ≡ true
own_abandoned f a h r e = ground (arith, e)

still_abandoned : (f a h r : Bool) → not a || (f && r) ≡ true → not a || (f && (h || r)) ≡ true
still_abandoned f a h r e = ground (arith, e)

abandoned-FitsLane :
    (t : Bool) (n : ℕ) (l : Lane) (running given_up : List ℕ)
    → l.in_flight && nat_beq l.seq n ≡ t
    → FitsLane l running given_up
    → FitsLane (mark_abandoned t l) running (n ∷ given_up)
abandoned-FitsLane true n l running given_up e c =
    (c.0, own_abandoned l.in_flight l.abandoned (nat_beq l.seq n) (has l.seq given_up) e)
abandoned-FitsLane false n l running given_up e c =
    (c.0, still_abandoned l.in_flight l.abandoned (nat_beq l.seq n) (has l.seq given_up) c.1)

abandon-FitsLane :
    (n : ℕ) (l : Lane) (running given_up : List ℕ)
    → FitsLane l running given_up
    → FitsLane (abandon n l) running (n ∷ given_up)
unfolding abandon
abandon-FitsLane n l running given_up c =
    abandoned-FitsLane (l.in_flight && nat_beq l.seq n) n l running given_up refl c

pub Step-IsConsistent : {v w : World} → Step v w → IsConsistent v → IsConsistent w
unfolding acquire release
Step-IsConsistent (takes v n l h) c =
    takes-FitsLane v.lane.abandoned v.lane.in_flight v.lane.seq n l v.running v.given_up h c.0
Step-IsConsistent (returns v n h) c =
    (without-own v.lane.in_flight v.lane.seq n v.running h c.0, refl)
Step-IsConsistent (gives_up v n h) c = abandon-FitsLane n v.lane v.running v.given_up c

pub Reach-IsConsistent : {w : World} → Reach start w → IsConsistent w
Reach-IsConsistent here = (refl, refl)
Reach-IsConsistent (next r st) = Step-IsConsistent st (Reach-IsConsistent r)

length-own : (f : Bool) (seq : ℕ) → length (if f then seq ∷ [] else []) ≤ 1
length-own true seq = omega arith
length-own false seq = omega arith

-- However callers and sends follow one another, at most one send of the channel is in progress.
pub Reach-one_send : {w : World} → Reach start w → length w.running ≤ 1
Reach-one_send {w} r =
    let h = ap length (Reach-IsConsistent r).0 in
    omega (arith, h, length-own w.lane.in_flight w.lane.seq)

refused_abandoned : (a f : Bool) (seq : ℕ) → a ≡ true → acquire_as a f seq ≡ refused
unfolding acquire_as
refused_abandoned true f seq h = refl
refused_abandoned false f seq h = cc

abandoned-own : (a f r : Bool) → a ≡ true → not a || (f && r) ≡ true → (f ≡ true) × (r ≡ true)
abandoned-own a f r h e = ground (arith, h, e)

own_running : (f : Bool) (seq : ℕ) → f ≡ true → (if f then seq ∷ [] else []) ≡ seq ∷ []
own_running true seq h = refl
own_running false seq h = cc

-- While a lane is abandoned it refuses every send; the send in progress is then the last that took
-- it, and its own caller gave it up: a late abandon of an earlier send never marks a newer one. When
-- that send returns nothing is in progress and the next one takes the lane.
pub Reach-abandoned :
    {w : World}
    → Reach start w
    → w.lane.abandoned ≡ true
    → (acquire w.lane ≡ refused)
      × (w.running ≡ w.lane.seq ∷ [])
      × (has w.lane.seq w.given_up ≡ true)
      × (acquire (release w.lane)
          ≡ taken
              (w.lane.seq + 1)
              (record { in_flight = true; abandoned = false; seq = w.lane.seq + 1 }))
unfolding acquire release acquire_as
Reach-abandoned {w} r h =
    let c = Reach-IsConsistent r in
    let own = abandoned-own w.lane.abandoned w.lane.in_flight (has w.lane.seq w.given_up) h c.1 in
    (
      refused_abandoned w.lane.abandoned w.lane.in_flight w.lane.seq h,
      c.0 ∙ own_running w.lane.in_flight w.lane.seq own.0,
      own.1,
      refl,
    )
