-- ===== src/Memguard/Guard.antt =====
-- The state of the guard and its sampling of services, pkg/health/memguard/guard.go.
pub mod Presence
pub mod History
use tgshd.Base.{
  ℕ, zero, suc, ◌+◌, ◌-◌, ◌/◌, ◌%◌, ◌^◌, max, List, [], ◌∷◌, Bool, true, false, not, ◌||◌, ◌&&◌,
  Option, none, some, ltb, nat_beq, if◌then◌else◌, Bytes, bytes_beq, lookup, insert, length, select,
}
use tgshd.Health.Types.{Time, Duration}
use tgshd.Memguard.Types.{
  Kind, Config, Service, ServiceKey, service_key_eq, Sample, Point, Culprit, Episode, State, idle,
  unset, Intervention,
}
use tgshd.Memguard.Eligibility.{service_of}
use tgshd.Memguard.Ring.{Ring, empty_ring, new_ring, add, reset}
use tgshd.Memguard.Culprit.{Entry}

-- 5 s.
abbrev pub service_interval : Duration
service_interval = 5_000_000_000

abbrev pub Entries : Type 0
Entries = List (ServiceKey × Entry)

pub record Guard : Type 0 where
  pub cfg : Config
  pub depth : ℕ
  pub entries : Entries
  pub gen : ℕ  -- uint64
  pub episode : Episode
  pub danger_since : Time
  pub clear_since : Time
  pub records : List Intervention

abbrev pub idle_episode : Episode
idle_episode = record {
  state = idle;
  since = 0;
  culprit = none;
  action = unset;
  acted_at = 0;
  done_at = 0;
}

-- `New`.
unfoldable pub new_guard : Config → Guard
new_guard cfg = record {
  cfg = cfg;
  depth = max 1 (cfg.culprit_window / service_interval + 1);
  entries = [];
  gen = 0;
  episode = idle_episode;
  danger_since = 0;
  clear_since = 0;
  records = [];
}

-- `entry.tracked`.
abbrev pub is_tracked : Service → Bool
is_tracked s = s.eligible || s.is_protected

-- The key of a sample.
abbrev pub key_of_sample : Sample → ServiceKey
key_of_sample s = record { kind = s.kind; name = s.name }

abbrev pub is_nil : List Point → Bool
is_nil [] = true
is_nil (p ∷ ps) = false

module _ (path_match : Bytes → Bytes → Bool) where
  -- The entry of a service that is new or whose cgroup changed: judged anew, with a new history.
  unfoldable pub judge_anew : Config → ℕ → Sample → Entry → Entry
  judge_anew cfg depth s e =
      let service = service_of path_match cfg s.kind s.name s.cgroup_path in
      let history =
        if is_tracked service && is_nil e.history.points then new_ring depth else e.history in
      record e { service = service; history = reset history }

  abbrev blank : Sample → Entry
  blank s = record {
    service = record {
      id = [];
      kind = s.kind;
      name = [];
      cgroup_path = [];
      eligible = false;
      is_protected = false;
    };
    history = empty_ring;
    seen = 0;
  }

  unfoldable pub entry_for : Config → ℕ → Sample → Option Entry → Entry
  entry_for cfg depth s none = judge_anew cfg depth s (blank s)
  entry_for cfg depth s (some e) =
      if bytes_beq e.service.cgroup_path s.cgroup_path then e else judge_anew cfg depth s e

  -- The entry after a sample: seen in this generation, and a point longer if it is tracked.
  unfoldable pub sampled : Config → ℕ → ℕ → Time → Sample → Option Entry → Entry
  unfolding entry_for
  sampled cfg depth gen at s found =
      let e = entry_for cfg depth s found in
      record e {
        seen = gen;
        history =
            if is_tracked e.service
            then add e.history (record { at = at; anon = s.anon })
            else e.history;
      }

  unfoldable pub sample_all : Config → ℕ → ℕ → Time → List Sample → Entries → Entries
  sample_all cfg depth gen at [] es = es
  sample_all cfg depth gen at (s ∷ ss) es =
      sample_all cfg depth gen at ss
        (insert (key_of_sample s) (sampled cfg depth gen at s (lookup (key_of_sample s) es)) es)

  -- `Guard.ObserveServices`.
  unfoldable pub observe_services : Time → List Sample → Guard → Guard
  unfolding sample_all
  observe_services at samples g =
      let gen = (g.gen + 1) % 2 ^ 64 in
      let es = sample_all g.cfg g.depth gen at samples g.entries in
      record g { gen = gen; entries = select (λ entry. nat_beq entry.1.seen gen) es }
