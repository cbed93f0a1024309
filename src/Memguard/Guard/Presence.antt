-- ===== src/Memguard/Guard/Presence.antt =====
-- Which services the guard knows after a sample, and what it remembers of them:
-- `Guard.ObserveServices` of pkg/health/memguard/guard.go.
use tgshd.Base.{
  ℕ, ◌+◌, ◌%◌, ◌^◌, ◌<◌, List, [], ◌∷◌, Bool, true, false, ◌≡◌, ◌≢◌, ◌↔◌, ◌⊎◌, inl, refl, ◌∙◌,
  Option, none, some, arith, if◌then◌else◌, nat_beq, Bytes, lookup, insert, lookup-insert, IsKeyed,
  insert-IsKeyed, select, lookup-select, select-IsKeyed, keep, All,
}
use tgshd.Health.Types.{Time}
use tgshd.Memguard.Types.{Config, ServiceKey, service_key_eq, service_key_beq_iff, Sample}
use tgshd.Memguard.Culprit.{Entry}
use tgshd.Memguard.Guard.{Guard, Entries, key_of_sample, sampled, sample_all, observe_services}

-- Every entry was seen by the last sample.
pub record IsFresh (g : Guard) : Type 0 where
  pub keyed : IsKeyed g.entries
  pub bounded : g.gen < 2 ^ 64
  pub seen : All (λ entry. entry.1.seen ≡ g.gen) g.entries

-- Whether some sample is of the service.
unfoldable pub is_sampled : ServiceKey → List Sample → Bool
is_sampled k [] = false
is_sampled k (s ∷ ss) = if service_key_eq.beq (key_of_sample s) k then true else is_sampled k ss

abbrev pub seen_of : Option Entry → Option ℕ
seen_of none = none
seen_of (some e) = some e.seen

module _ (path_match : Bytes → Bytes → Bool) where
  sampled-seen :
      (cfg : Config) (depth gen : ℕ) (at : Time) (s : Sample) (found : Option Entry)
      → (sampled path_match cfg depth gen at s found).seen ≡ gen
  unfolding sampled
  sampled-seen cfg depth gen at s found = refl

  seen_of-sample_all :
      (cfg : Config) (depth gen : ℕ) (at : Time) (ss : List Sample) (es : Entries) (k : ServiceKey)
      → seen_of (lookup k (sample_all path_match cfg depth gen at ss es))
        ≡ (if is_sampled k ss then some gen else seen_of (lookup k es))
  unfolding sample_all is_sampled
  seen_of-sample_all cfg depth gen at [] es k = refl
  seen_of-sample_all cfg depth gen at (s ∷ ss) es k =
      let e = sampled path_match cfg depth gen at s (lookup (key_of_sample s) es) in
      seen_of-sample_all cfg depth gen at ss (insert (key_of_sample s) e es) k
      ∙ ground (
        arith,
        service_key_beq_iff (key_of_sample s) k,
        lookup-insert (key_of_sample s) k e es,
        sampled-seen cfg depth gen at s (lookup (key_of_sample s) es),
      )

  sample_all-IsKeyed :
      (cfg : Config) (depth gen : ℕ) (at : Time) (ss : List Sample) (es : Entries)
      → IsKeyed es
      → IsKeyed (sample_all path_match cfg depth gen at ss es)
  unfolding sample_all
  sample_all-IsKeyed cfg depth gen at [] es h = h
  sample_all-IsKeyed cfg depth gen at (s ∷ ss) es h =
      sample_all-IsKeyed cfg depth gen at ss _ (insert-IsKeyed (key_of_sample s) _ es h)

  All-lookup :
      (n : ℕ) (k : ServiceKey) (es : Entries)
      → All (λ entry. entry.1.seen ≡ n) es
      → (seen_of (lookup k es) ≡ none) ⊎ (seen_of (lookup k es) ≡ some n)
  unfolding lookup
  All-lookup n k [] h = inl refl
  All-lookup n k ((j, e) ∷ es) h = ground (arith, All-lookup n k es h.1)

  All-select :
      (n : ℕ) (es : Entries)
      → All (λ entry. entry.1.seen ≡ n) (select (λ entry. nat_beq entry.1.seen n) es)
  All-select n [] = tt
  All-select n ((j, e) ∷ es) = ground (arith, All-select n es)

  next_gen : (n : ℕ) → n < 2 ^ 64 → ((n + 1) % 2 ^ 64 < 2 ^ 64) × ((n + 1) % 2 ^ 64 ≢ n)
  next_gen n h = omega arith

  keep-none :
      (o : Option Entry) (q : Option ℕ) (gen old : ℕ) (b : Bool)
      → seen_of o ≡ (if b then some gen else q)
      → (q ≡ none) ⊎ (q ≡ some old)
      → gen ≢ old
      → keep (λ e. nat_beq e.seen gen) o ≡ none ↔ b ≡ false
  keep-none none q gen old true h c ne = (λ e. cc, λ e. cc)
  keep-none none q gen old false h c ne = (λ e. refl, λ e. refl)
  keep-none (some e) q gen old true h c ne = (λ k. absurd (ground arith), λ k. cc)
  keep-none (some e) q gen old false h c ne = (λ k. refl, λ k. ground arith)

  -- Where every entry was seen by the last sample, a sample keeps those of the services in it, whatever the generation counter wraps to,
  -- and drops every other with its history; then every entry was seen by the last sample again.
  pub observe_services-present :
      (g : Guard) (at : Time) (ss : List Sample) (k : ServiceKey)
      → IsFresh g
      → let g' = observe_services path_match at ss g in
        IsFresh g' × (lookup k g'.entries ≡ none ↔ is_sampled k ss ≡ false)
  unfolding observe_services
  observe_services-present g at ss k f =
      let gen = (g.gen + 1) % 2 ^ 64 in
      let es = sample_all path_match g.cfg g.depth gen at ss g.entries in
      let keyed = sample_all-IsKeyed g.cfg g.depth gen at ss g.entries f.keyed in
      let fresh = next_gen g.gen f.bounded in
      (
        record {
          keyed = select-IsKeyed (λ e. nat_beq e.seen gen) es keyed;
          bounded = fresh.0;
          seen = All-select gen es;
        },
        rw (lookup-select (λ e. nat_beq e.seen gen) k es keyed) (
            keep-none (lookup k es) (seen_of (lookup k g.entries)) gen g.gen (is_sampled k ss)
              (seen_of-sample_all g.cfg g.depth gen at ss g.entries k)
              (All-lookup g.gen k g.entries f.seen) fresh.1),
      )
