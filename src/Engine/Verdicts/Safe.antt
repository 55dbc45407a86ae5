-- ===== src/Engine/Verdicts/Safe.antt =====
-- What `drop_check` lets go.
use mathlib.Core.Path.{subst}
use zark.Base.{
  ◌≡◌, refl, sym, ap, ◌∙◌, ◌≢◌, inl, inr, Bool, true, false, not, ◌&&◌, Option, none, ◌∷◌, arith,
  Bool-cases, Option-cases, Elem, find_first, elem-select_iff, find_first-eq-some, elem-append_iff,
  elem-map, elem-flat_map, elem-sort_by_iff, Dict, get, Text, text_eq, mem_text, text_eq→eq,
  text_eq-false, mem_text→elem, elem→mem_text,
}
use zark.Replication.Names.{is_point, anchor_disk, anchor_name, old_anchors}
use zark.Replication.Model.{Ref, Origin, Dest}
use zark.Replication.Plan.{expected}
use zark.Engine.Model.{look_origin, look_dest, look_owners, Event, Read, Env, Config, Run, Verdict}
use zark.Engine.Verdicts.{
  verdict, guids_of, is_partial, anchors_of, is_verified, point_verdict, anchor_target,
  anchor_verdict, verdicts_on, seen_of, all_verdicts, gone_from, check_reads, drop_check, Seen,
}
use zark.Retention.Prune.{target_of, item_le, sorted_items}

-- This drive's anchor of the run's point is in origin, and the backup holds what it marks, by guid.
pub record IsAnchored (c : Config) (rel : Text) (o : Origin) (d : Option Dest) : Type 0 where
  pub anchor : Ref
  pub listed : Elem anchor (anchors_of rel o)
  pub named : anchor.name ≡ anchor_name c.disk_guid c.point
  pub held : Elem anchor.guid (guids_of d)

is_verified→IsAnchored :
    (c : Config) (rel : Text) (o : Origin) (d : Option Dest)
    → is_verified c rel o d ≡ true
    → IsAnchored c rel o d
unfolding is_verified
is_verified→IsAnchored c rel o d h =
    let named : Ref → Bool = λ a. text_eq a.name (anchor_name c.disk_guid c.point) in
    elim (Option-cases (find_first named (anchors_of rel o))) [
      | inl e ↦ absurd (ground (arith, rw (is_verified, e) at h))
      | inr (a, e) ↦
          let f = find_first-eq-some named a (anchors_of rel o) e in
          record {
            anchor = a;
            listed = f.0;
            named = text_eq→eq a.name _ f.1;
            held = mem_text→elem a.guid (guids_of d) (rw (is_verified, e) at h);
          }
    ]

-- A backup point that may go: of a dataset that is not replicated, or of one with no partial receive,
-- where it is this run's and never reached the backup, or this run's is anchored.
pub data MayGo (c : Config) (wanted : Bool) (rel : Text) (o : Origin) (d : Option Dest) (s : Ref)
    : Type 0 where
  not_replicated : wanted ≡ false → MayGo c wanted rel o d s
  not_held :
      is_partial d ≡ false
      → s.name ≡ c.point
      → (Elem s.guid (guids_of d) → ⊥)
      → MayGo c wanted rel o d s
  anchored : is_partial d ≡ false → IsAnchored c rel o d → MayGo c wanted rel o d s

-- A target that may be destroyed in origin: such a point, or an older anchor of this drive.
pub data IsSpent (c : Config) (wanted : Bool) (rel : Text) (o : Origin) (d : Option Dest)
    : Text → Type 0 where
  point :
      (s : Ref)
      → Elem s o.snaps
      → is_point s.name ≡ true
      → MayGo c wanted rel o d s
      → IsSpent c wanted rel o d (target_of rel s.name)
  superseded :
      (a : Ref)
      → Elem a (anchors_of rel o)
      → anchor_disk a.name ≡ c.disk_guid
      → a.name ≢ anchor_name c.disk_guid c.point
      → IsAnchored c rel o d
      → IsSpent c wanted rel o d (anchor_target rel a.name)

point_verdict-MayGo :
    (c : Config) (owners : Dict Text) (x : Seen) (s : Ref)
    → (point_verdict c owners x s).drop ≡ true
    → MayGo c x.wanted x.rel x.origin x.dest s
unfolding point_verdict verdict
point_verdict-MayGo c owners x s h =
    let held = mem_text s.guid (guids_of x.dest) in
    elim (Bool-cases x.wanted) [
      | inr n ↦ MayGo.not_replicated n
      | inl w ↦ elim (Bool-cases (is_partial x.dest)) [
        | inl p ↦ absurd (ground arith)
        | inr p ↦ elim (Bool-cases (text_eq s.name c.point && not held)) [
          | inl g ↦
              MayGo.not_held p (text_eq→eq s.name c.point (ground arith))
                (λ m. absurd (ground (arith, elem→mem_text s.guid (guids_of x.dest) m)))
          | inr g ↦ MayGo.anchored p (is_verified→IsAnchored c x.rel x.origin x.dest (ground arith))
        ]
      ]
    ]

anchor_verdict-IsAnchored :
    (c : Config) (x : Seen) (name : Text)
    → (anchor_verdict c x name).drop ≡ true
    → IsAnchored c x.rel x.origin x.dest
unfolding anchor_verdict verdict
anchor_verdict-IsAnchored c x name h = is_verified→IsAnchored c x.rel x.origin x.dest (ground arith)

point_verdict-target :
    (c : Config) (owners : Dict Text) (x : Seen) (s : Ref)
    → (point_verdict c owners x s).target ≡ target_of x.rel s.name
unfolding point_verdict verdict
point_verdict-target c owners x s = ground arith

anchor_verdict-target :
    (c : Config) (x : Seen) (name : Text)
    → (anchor_verdict c x name).target ≡ anchor_target x.rel name
unfolding anchor_verdict verdict
anchor_verdict-target c x name = ground arith

verdicts_on-IsSpent :
    (c : Config) (owners : Dict Text) (x : Seen) (v : Verdict)
    → Elem v (verdicts_on c owners x)
    → v.drop ≡ true
    → IsSpent c x.wanted x.rel x.origin x.dest v.target
unfolding verdicts_on old_anchors
verdicts_on-IsSpent c owners x v m h = elim ((elem-append_iff v _ _).0 m) [
  | inl k ↦
      let (s, at, e) = elem-map (point_verdict c owners x) v _ k in
      let (there, shape) = (elem-select_iff (λ (r : Ref). is_point r.name) s x.origin.snaps).0 at in
      let target : target_of x.rel s.name ≡ v.target =
        sym (point_verdict-target c owners x s) ∙ ap (λ (y : Verdict). y.target) e in
      let may = point_verdict-MayGo c owners x s (ap (λ (y : Verdict). y.drop) e ∙ h) in
      subst (IsSpent c x.wanted x.rel x.origin x.dest) target (IsSpent.point s there shape may)
  | inr k ↦
      let (name, at, e) = elem-map (anchor_verdict c x) v _ k in
      let keep = anchor_name c.disk_guid c.point in
      let test : Text → Bool = λ n. text_eq (anchor_disk n) c.disk_guid && not (text_eq n keep) in
      let (there, ok) = (elem-select_iff test name _).0 at in
      let (a, listed, n) = elem-map (λ (r : Ref). r.name) name _ there in
      let named : test a.name ≡ true = ap test n ∙ ok in
      let target : anchor_target x.rel a.name ≡ v.target =
        ap (anchor_target x.rel) n
        ∙ (sym (anchor_verdict-target c x name) ∙ ap (λ (y : Verdict). y.target) e) in
      let anchored = anchor_verdict-IsAnchored c x name (ap (λ (y : Verdict). y.drop) e ∙ h) in
      subst (IsSpent c x.wanted x.rel x.origin x.dest) target (
        IsSpent.superseded a listed (text_eq→eq (anchor_disk a.name) c.disk_guid (ground arith))
          (text_eq-false a.name keep (ground arith)) anchored)
]

-- What one check read of both sides.
pub record WasRead (env : Env) (c : Config) (r : Run) (origin : Dict Origin) (dest : Dict Dest)
    : Type 0 where
  pub gave_origin : env.origin r.trace ≡ Read.given origin
  pub gave_dest : env.dest (Event.read_origin ∷ r.trace) ≡ Read.given dest
  pub nothing_gone : gone_from r dest ≡ none

abbrev HasReason : Env → Config → Run → Verdict → Read (Dict Origin) → Read (Dict Dest) → Type 0
HasReason env c r v o d =
    (origin : Dict Origin) × (dest : Dict Dest) × (o ≡ Read.given origin)
    × (d ≡ Read.given dest)
    × (gone_from r dest ≡ none)
    × (rel : Text) × (x : Origin) × Elem (rel, x) origin
    × IsSpent c (mem_text rel (expected origin c.exclusions)) rel x (get rel dest) v.target

check_reads-HasReason :
    (env : Env) (c : Config) (r : Run) (v : Verdict) (o : Read (Dict Origin)) (d : Read (Dict Dest))
    (owners : Read (Dict Text))
    → Elem v (check_reads c r o d owners)
    → v.drop ≡ true
    → HasReason env c r v o d
unfolding check_reads all_verdicts sorted_items
check_reads-HasReason env c r v (Read.given o) (Read.given d) (Read.given owners) m h =
    elim (Option-cases (gone_from r d)) [
      | inr (rel, e) ↦ elim (rw (check_reads, e) at m) [ ]
      | inl e ↦
          let (x, at, k) =
            elem-flat_map (λ y. verdicts_on c owners (seen_of c o d y)) v _
              (rw (check_reads, e) at m) in
          (
            o,
            d,
            refl,
            refl,
            e,
            x.0,
            x.1,
            (elem-sort_by_iff item_le x o).0 at,
            unfold seen_of in verdicts_on-IsSpent c owners (seen_of c o d x) v k h,
          )
    ]
check_reads-HasReason env c r v (Read.given o) (Read.given d) (Read.error t) m h = elim m [ ]
check_reads-HasReason env c r v (Read.given o) (Read.error t) owners m h = elim m [ ]
check_reads-HasReason env c r v (Read.error t) d owners m h = elim m [ ]

-- Whatever `drop_check` lets go, the fresh listings of both sides were given, no dataset of the last
-- survey is missing on the drive, and the target is one that no run needs: a backup point of a dataset
-- of origin which is not replicated, or which has no partial receive where this run's point never
-- reached the backup or is anchored for this drive and held there by guid; or an older anchor of this
-- drive, superseded by such an anchor. So no anchor of another drive is let go.
pub drop_check-IsSpent :
    (env : Env) (c : Config) (r : Run) (v : Verdict)
    → Elem v (drop_check env c r).0
    → v.drop ≡ true
    → (origin : Dict Origin) × (dest : Dict Dest) × WasRead env c r origin dest
      × (rel : Text) × (o : Origin) × Elem (rel, o) origin
      × IsSpent c (mem_text rel (expected origin c.exclusions)) rel o (get rel dest) v.target
unfolding drop_check look_origin look_dest look_owners
drop_check-IsSpent env c r v m h =
    let (origin, dest, o, d, gone, rel, x, at, spent) =
      check_reads-HasReason env c r v (env.origin r.trace) (env.dest (Event.read_origin ∷ r.trace))
        _ m h in
    (
      origin,
      dest,
      record { gave_origin = o; gave_dest = d; nothing_gone = gone },
      rel,
      x,
      at,
      spent,
    )
