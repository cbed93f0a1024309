-- ===== src/Memguard/Eligibility.antt =====
-- Which services the guard may touch: `Config.Service` and its helpers of
-- pkg/health/memguard/guard.go. `path.Match` is a parameter.
pub mod Safety
use tgshd.Base.{
  ℕ, List, [], ◌∷◌, ◌++◌, Bool, true, false, not, ◌&&◌, ◌||◌, ◌≡◌, ◌≢◌, refl, ◌∙◌, Option, none,
  some, arith, inl, inr, ◌⊎◌, if◌then◌else◌, any, Bytes, codes, bytes_beq, bytes_beq_iff,
  cut_prefix, has_prefix, cut_suffix, has_suffix, trim, after_last, nat_beq,
}
use tgshd.Memguard.Types.{Kind, container, unit, kind_beq, Config, Service}

-- `isServiceCgroup`.
unfoldable pub is_service_cgroup : Bytes → Bool
is_service_cgroup cg_path = elim (cut_prefix cg_path (codes "system.slice/")) [
  | none ↦ false
  | some rest ↦
      let last = after_last b'/' rest in
      has_suffix last (codes ".service") || has_suffix last (codes ".scope")
]

abbrev pub begins_with_slash : Bytes → Bool
begins_with_slash [] = true
begins_with_slash (c ∷ s) = nat_beq c b'/'

-- `Config.holdsSelf`: whether the cgroup is tgshd's own or holds it.
unfoldable pub holds_from : Bytes → Bytes → Bool
holds_from self cg_path =
    if bytes_beq self []
    then false
    else elim (cut_prefix self cg_path) [ none ↦ false | some rest ↦ begins_with_slash rest ]

unfoldable pub holds_self : Config → Bytes → Bool
holds_self c cg_path = holds_from (trim b'/' c.self_cgroup) cg_path

-- `isCoreUnit`.
unfoldable pub is_core_unit : Bytes → Bool
is_core_unit name =
    any (bytes_beq name) (
      codes "docker.service"
      ∷ codes "containerd.service"
      ∷ codes "dbus.service"
      ∷ codes "ssh.service"
      ∷ codes "sshd.service"
      ∷ [])
    || has_prefix name (codes "systemd-")

abbrev pub kind_text : Kind → Bytes
kind_text container = codes "container"
kind_text unit = codes "unit"

abbrev untouchable : Kind → Bytes → Bytes → Service
untouchable kind name cgroup_path = record {
  id = kind_text kind ++ codes ":" ++ name;
  kind = kind;
  name = name;
  cgroup_path = cgroup_path;
  eligible = false;
  is_protected = false;
}

module _ (path_match : Bytes → Bytes → Bool) where
  abbrev matches_short : Kind → Option Bytes → Bytes → Bool
  matches_short unit (some short) entry = path_match entry short
  matches_short unit none entry = false
  matches_short container short entry = false

  abbrev names_service : Kind → Bytes → Bytes → Bool
  names_service kind name entry =
      path_match entry name || matches_short kind (cut_suffix name (codes ".service")) entry

  -- `Config.neverTouch`: `path_match entry name` is `path.Match`, false for a malformed pattern.
  unfoldable pub never_touch : Config → Kind → Bytes → Bool
  never_touch c kind name = any (names_service kind name) c.never_touch

  -- `Config.Service`.
  unfoldable pub service_of : Config → Kind → Bytes → Bytes → Service
  service_of c kind name cgroup_path =
      let cg_path = trim b'/' cgroup_path in
      let s = untouchable kind name cgroup_path in
      if not (is_service_cgroup cg_path)
        || holds_self c cg_path
        || (kind_beq kind unit && is_core_unit name)
      then s
      else if never_touch c kind name
      then record s { is_protected = true }
      else record s { eligible = true }
