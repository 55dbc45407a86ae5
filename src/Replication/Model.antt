-- ===== src/Replication/Model.antt =====
-- lib/replication.py: the data of the planner.
use zark.Base.{
  ℕ, ◌≡◌, Bool, true, false, Option, none, some, List, [], Elem, find_first, get_last?,
  find_first-eq-some, Text, text_eq, text_eq→eq,
}

-- A snapshot or bookmark of one dataset.
pub record Ref : Type 0 where
  pub name : Text
  pub guid : Text
  pub createtxg : ℕ
  pub creation : ℕ

pub record Origin : Type 0 where
  pub rel : Text
  pub kind : Text
  pub canmount : Text
  pub mountpoint : Text
  pub referenced : ℕ
  pub snaps : List Ref
  pub bookmarks : List Ref
  pub clone_of : Text

pub record Dest : Type 0 where
  pub rel : Text
  pub kind : Text
  pub token : Text
  pub orphan : Text
  pub excluded_kept : Text
  pub used : ℕ
  pub written : ℕ
  pub snaps : List Ref
  pub clone_of : Text

unfoldable pub with_guid : Text → List Ref → Option Ref
with_guid guid refs = find_first (λ s. text_eq s.guid guid) refs

-- what it finds is there, and has the guid
pub with_guid-eq-some :
    (guid : Text) (refs : List Ref) (r : Ref)
    → with_guid guid refs ≡ some r
    → Elem r refs × (r.guid ≡ guid)
unfolding with_guid
with_guid-eq-some guid refs r h = let f = find_first-eq-some _ r refs h in (f.0, text_eq→eq _ _ f.1)

unfoldable pub snap_by_guid : Origin → Text → Option Ref
snap_by_guid o guid = with_guid guid o.snaps

unfoldable pub bookmark_by_guid : Origin → Text → Option Ref
bookmark_by_guid o guid = with_guid guid o.bookmarks

unfoldable pub newest : Dest → Option Ref
newest d = get_last? d.snaps

pub data State : Type 0 where
  at_point resume new incremental via_bookmark rollback diverged modified orphan excluded : State

-- `State.INCREMENTAL` or `State.VIA_BOOKMARK`
abbrev pub continues : State → Bool
continues State.incremental = true
continues State.via_bookmark = true
continues _ = false

abbrev pub is_resume : State → Bool
is_resume State.resume = true
is_resume _ = false

abbrev pub is_new : State → Bool
is_new State.new = true
is_new _ = false

abbrev pub is_at_point : State → Bool
is_at_point State.at_point = true
is_at_point _ = false

-- `State.ORPHAN` or `State.EXCLUDED`
abbrev pub is_left_out : State → Bool
is_left_out State.orphan = true
is_left_out State.excluded = true
is_left_out _ = false

-- `TRANSFERABLE`
abbrev pub transferable : State → Bool
transferable State.at_point = true
transferable State.resume = true
transferable State.new = true
transferable State.incremental = true
transferable State.via_bookmark = true
transferable _ = false

pub record DatasetPlan : Type 0 where
  pub rel : Text
  pub state : State
  pub base : Text
  pub first : Text
  pub common : Text
  pub newer : List Text
  pub rename_to : Text
  pub clone_from : Text
  pub kept : Bool
  pub partial : Bool
  pub after : Option State
  pub used : ℕ
  pub note : Text
  pub declared : Bool
  pub held : Bool

-- the constructor call with its defaults
abbrev pub bare : Text → State → DatasetPlan
bare r s = record {
  rel = r;
  state = s;
  base = [];
  first = [];
  common = [];
  newer = [];
  rename_to = [];
  clone_from = [];
  kept = false;
  partial = false;
  after = none;
  used = 0;
  note = [];
  declared = false;
  held = false;
}
