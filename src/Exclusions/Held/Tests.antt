-- ===== src/Exclusions/Held/Tests.antt =====
-- Runs on the destroy of a drive's copy, and the theorem on its rewrites at concrete inputs.
use mathlib.Core.Path.{subst}
use zark.Base.{
  ℕ, ◌+◌, ◌≡◌, refl, sym, ◌⊎◌, inl, inr, Bool, true, false, not, Option, none, some, List, [], ◌∷◌,
  map, arith, Elem, all, Dict, get, Text, codes, text_eq, mem_text, text_eq_refl,
}
use zark.Anchors.{bookmark_of}
use zark.Dependents.{Dependent, DestroyPlan}
use zark.Exclusions.{subtree}
use zark.Exclusions.Held.{rewrites, Rewrite}
use zark.Exclusions.Held.Destroy.{destroy_held, Writes}
use zark.Exclusions.Held.Only.{destroy_held-Keeps}
use zark.Exclusions.Held.Rewritten.{rewrites-IsRewritten, IsRewritten}
use zark.Reclaim.Measure.{in_pool}
use zark.Replication.Model.{Ref, Origin}
use zark.Replication.Names.{anchor_disk}
use zark.RestorePoints.Model.{Snap}
use zark.Exclusions.Held.World.{
  held_open, home, point, snap_on, snaps, kept_target, new_mark, loads, shown, records, recorded,
  loss, nothing_left_out, rewritten,
}
use zark.RestorePoints.Complete.Losses.{loss_at}

made :
    rewrites loads shown (codes "tank") home (codes "both") snaps records (home ∷ []) recorded
    ≡ some rewritten
unfolding held_open
made = refl

-- commands that succeed, with a count of them
abbrev writes : Writes ℕ
writes = record {
  set_props = λ props names n. (true, n + 1);
  destroy_tree = λ name n. (true, n + 10);
  destroy_bookmark = λ name n. (true, n + 100);
}

abbrev run_on : Dict (Option Text) → Option Bool × ℕ
run_on records =
    destroy_held writes loads shown (λ s. s) (codes "tank") home (codes "both") (codes "9") []
      (record { top = home; order = []; blockers = [] }) (some snaps) (some records) recorded 0

destroyed : run_on records ≡ (some true, 11)
unfolding held_open
destroyed = refl

-- a record that cannot be read stops the destroy before it
refused : run_on ((kept_target, none) ∷ []) ≡ (some false, 0)
unfolding held_open
refused = refl

-- A dependent goes, the top does not: a point that the whole destroy would have taken is then read for
-- the first time, and its record cannot be.
abbrev writes_but_top : Writes ℕ
writes_but_top = record writes {
  destroy_tree = λ name n. (not (text_eq name (codes "tank/rpool/home")), n + 10);
}

abbrev lineage : Dependent
lineage = record {
  rel = codes "rpool/old";
  origin = codes "rpool/home@a";
  archived = true;
  depth = 1;
}

abbrev two_of_home : List Snap
two_of_home =
    record (snap_on home) { source = codes "rpool/old" } ∷ snap_on (codes "rpool/home/ana") ∷ []

escapes :
    destroy_held writes_but_top loads shown
      (λ s. s)
      (codes "tank")
      home
      (codes "both")
      (codes "9")
      []
      (record { top = home; order = lineage ∷ []; blockers = [] })
      (some two_of_home)
      (some ((codes "tank/rpool/home/ana@zark_2026-11-20_08:00:00Z", none) ∷ []))
      recorded
      0
    ≡ (none, 20)
unfolding held_open
escapes = refl

held_new :
    (t : Text)
    → Elem t loss.targets
    → get t ((kept_target, some new_mark) ∷ []) ≡ some (some new_mark)
unfolding get
held_new t m = elim m [ inl s ↦ rw (get, ← s, text_eq_refl kept_target) refl | inr q ↦ elim q [ ] ]

rewrites-IsRewritten_example :
    (w : Rewrite) × Elem (point, w) rewritten
    × IsRewritten loads shown
        (codes "tank")
        home
        (codes "both")
        point
        snaps
        (home ∷ [])
        recorded
        ((kept_target, some new_mark) ∷ [])
        (loss_at (codes "tank") snaps (home ∷ []) point)
        nothing_left_out
        w
unfolding held_open
rewrites-IsRewritten_example =
    rewrites-IsRewritten loads shown (codes "tank") home (codes "both") snaps records
      ((kept_target, some new_mark) ∷ []) (home ∷ []) recorded rewritten (snap_on home)
      nothing_left_out refl (inr (inl refl)) refl refl refl (λ z. absurd (ground arith))
      (λ z. absurd (ground arith)) refl refl (refl, held_new)

abbrev anchor_of : Text → Ref
anchor_of name = record { name = name; guid = codes "7"; createtxg = 5; creation = 10 }

abbrev this_anchor : Ref
this_anchor = anchor_of (codes "zark_9_2026-11-20_08:00:00Z")

abbrev other_anchor : Ref
other_anchor = anchor_of (codes "zark_8_2026-11-20_08:00:00Z")

abbrev home_origin : Origin
home_origin = record {
  rel = home;
  kind = codes "filesystem";
  canmount = codes "on";
  mountpoint = codes "/home";
  referenced = 1;
  snaps = [];
  bookmarks = this_anchor ∷ other_anchor ∷ [];
  clone_of = [];
}

abbrev origin : Dict Origin
origin = (home, home_origin) ∷ []

abbrev with_lineage : DestroyPlan
with_lineage = record { top = home; order = lineage ∷ []; blockers = [] }

-- every command succeeds and is written down
abbrev noted : Writes (List Text)
noted = record {
  set_props = λ props names w. (true, w);
  destroy_tree = λ name w. (true, name ∷ w);
  destroy_bookmark = λ name w. (true, name ∷ w);
}

abbrev may_go : List Text
may_go =
    codes "tank/rpool/home"
    ∷ codes "tank/rpool/old"
    ∷ codes "rpool/home#zark_9_2026-11-20_08:00:00Z"
    ∷ []

abbrev Allowed : List Text → Type 0
Allowed w = all (λ name. mem_text name may_go) w ≡ true

abbrev noted_run : Option Bool × List Text
noted_run =
    destroy_held noted loads shown (λ s. s) (codes "tank") home (codes "both") (codes "9") origin
      with_lineage (some snaps) (some records) recorded []

all_gone :
    noted_run.1
    ≡ codes "rpool/home#zark_9_2026-11-20_08:00:00Z"
      ∷ codes "tank/rpool/home"
      ∷ codes "tank/rpool/old"
      ∷ []
unfolding held_open
all_gone = refl

tree_kept :
    (rel : Text)
    → (rel ≡ home) ⊎ Elem rel (map (λ d. d.rel) with_lineage.order)
    → (v : List Text) → Allowed v
    → Allowed (in_pool (codes "tank") rel ∷ v)
unfolding held_open
tree_kept rel m v h =
    let ok : mem_text (in_pool (codes "tank") rel) may_go ≡ true = elim m [
      | inl s ↦ subst (λ r. mem_text (in_pool (codes "tank") r) may_go ≡ true) (sym s) refl
      | inr q ↦ elim q [
        | inl s ↦ subst (λ r. mem_text (in_pool (codes "tank") r) may_go ≡ true) s refl
        | inr none_of ↦ elim none_of [ ]
      ]
    ] in
    rw ok h

own_kept :
    (rel : Text) (o : Origin) (b : Ref)
    → Elem rel (subtree home origin)
    → get rel origin ≡ some o
    → Elem b o.bookmarks
    → text_eq (anchor_disk b.name) (codes "9") ≡ true
    → (v : List Text) → Allowed v
    → Allowed (bookmark_of rel b.name ∷ v)
unfolding held_open
own_kept rel o b m e mb disk v h = elim m [
  | inr q ↦ elim q [ ]
  | inl same ↦
      let found : some home_origin ≡ some o = subst (λ r. get r origin ≡ some o) (sym same) e in
      let is_home : home_origin ≡ o = cc found in
      let mine : Elem b home_origin.bookmarks =
        subst (λ (x : Origin). Elem b x.bookmarks) (sym is_home) mb in
      let ok : mem_text (bookmark_of rel b.name) may_go ≡ true = elim mine [
        | inl s ↦
            subst (λ r. mem_text (bookmark_of r b.name) may_go ≡ true) same
              (subst (λ (c : Ref). mem_text (bookmark_of home c.name) may_go ≡ true) s refl)
        | inr q ↦ elim q [
          | inl s ↦
              let other : false ≡ true =
                subst (λ (c : Ref). text_eq (anchor_disk c.name) (codes "9") ≡ true) (sym s) disk in
              absurd (cc other)
          | inr none_of ↦ elim none_of [ ]
        ]
      ] in
      rw ok h
]

destroy_held-Keeps_example : Allowed noted_run.1
unfolding held_open
destroy_held-Keeps_example =
    destroy_held-Keeps noted Allowed loads shown (λ s. s) (codes "tank") home (codes "both")
      (codes "9") origin with_lineage (some snaps) (some records) recorded [] (λ props names v h. h)
      tree_kept own_kept refl
