-- ===== src/Status/Tests.antt =====
-- Runs on notices and notifications, and their theorems at a concrete state.
use zark.Base.{
  ℕ, ◌≡◌, refl, inr, true, Option, none, some, List, [], ◌∷◌, map, Elem, select, any, flat_map,
  insert_sorted, sort_by, get, get_or, Text, codes, text_eq, text_le, mem_text, decimal_go, decimal,
}
use zark.OriginPrune.{join_names}
use zark.Status.{
  has_none, cap_level, cap_le, percent_full, level_from, is_high, cap_lines_go, cap_lines,
  cap_pools, boot_line, residue_line, age_part, known_ages, min_from, is_stale, rpo_line, Status,
}
use zark.Status.Notices.{
  zip_strict, plain, capacity_notice, anchor_notice, drives_of, unlisted_notice, boot_notices,
  age_notices, is_unlisted, last_notices, notices, motd_line, motd_text, Notice,
}
use zark.Status.Notices.Total.{IsReported, notices-total}
use zark.Status.Due.{due_key, is_due, due_notice, due_notifications}

-- what the runs compute with
status_open : Unit {0}
unfolding text_eq text_le mem_text any select insert_sorted sort_by get get_or decimal decimal_go
    join_names has_none cap_level cap_le percent_full level_from is_high cap_lines_go cap_lines
    cap_pools boot_line residue_line age_part known_ages min_from is_stale rpo_line zip_strict plain
    capacity_notice anchor_notice drives_of motd_line motd_text flat_map boot_notices age_notices
    is_unlisted unlisted_notice last_notices notices due_key is_due due_notice due_notifications
status_open = tt

abbrev zark_name : Text
zark_name = codes "zark"

abbrev today : Text
today = codes "2026-11-26"

-- rpool is nearly full, bpool is not; one drive is eight days old and has no anchor
abbrev state : Status (Unit {0}) (Unit {0})
state = record {
  caps = (codes "rpool", 92) ∷ (codes "bpool", 40) ∷ (codes "data", 80) ∷ [];
  ages = (codes "red", some 8) ∷ (codes "blue", none) ∷ [];
  shared = codes "red shares no snapshot" ∷ [];
  residues = 2;
  read_error = [];
  selftest = [];
  shared_drives = codes "red" ∷ [];
  spaces = (codes "rpool", some tt) ∷ (codes "bpool", none) ∷ [];
  datasets = (codes "rpool", none) ∷ [];
  boot = some (record {
    mountpoint = codes "/boot";
    fstype = codes "ext4";
    source = codes "/dev/sda2";
    used_bytes = 91;
    available_bytes = 9;
    size_bytes = 100;
    capacity_pct = 91;
    measured_at = codes "2026-11-26T00:00:00Z";
  });
  upgrade_risk = [];
}

levels : Option (List Notice) → List (Text × Text)
levels none = []
levels (some out) = map (λ (n : Notice). (n.level, n.code)) out

notices_run :
    levels (notices zark_name (codes "risk") state)
    ≡ (codes "warning", codes "capacity")
      ∷ (codes "critical", codes "capacity")
      ∷ (codes "critical", codes "boot_capacity")
      ∷ (codes "warning", codes "backup_age")
      ∷ (codes "warning", codes "no_anchor")
      ∷ (codes "warning", codes "read_error")
      ∷ (codes "info", codes "origin_residues")
      ∷ []
unfolding status_open levels
notices_run = refl

rpo_run : rpo_line state ≡ (true, codes "last backups: red 8 day(s) ago, blue never")
unfolding status_open
rpo_run = refl

-- Two lines for one drive: the strict zip raises.
unpaired_run :
    notices zark_name (codes "risk") (record state { shared = codes "a" ∷ codes "b" ∷ [] }) ≡ none
unfolding status_open
unpaired_run = refl

-- A state with nothing to say leaves the message empty.
quiet_run :
    motd_text zark_name (codes "risk") (record state {
      caps = [];
      ages = [];
      shared = [];
      residues = 0;
      shared_drives = [];
      spaces = [];
      boot = none;
    })
    ≡ some []
unfolding status_open
quiet_run = refl

due_run :
    due_notifications zark_name state (codes "data warning 2026-11-26" ∷ []) today
    ≡ (codes "rpool critical 2026-11-26", codes "rpool is 92% full - free space with: zark prune")
      ∷ []
unfolding status_open
due_run = refl

notices-total_example :
    (out : List Notice) × (notices zark_name (codes "risk") state ≡ some out)
    × ((e : Text × ℕ) → Elem e state.caps → is_high e ≡ true → IsReported out e)
notices-total_example = notices-total zark_name (codes "risk") state (inr refl)
