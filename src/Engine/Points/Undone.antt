-- ===== src/Engine/Points/Undone.antt =====
-- What `undo_point` takes from origin.
use mathlib.Core.Path.{subst}
use zark.Base.{
  ◌≡◌, refl, ◌∙◌, inl, inr, Bool, true, false, not, ◌&&◌, ◌||◌, List, [], ◌∷◌, arith, if◌then◌else◌,
  Bool-cases, false_of_not_true, Elem, select, any, elem→any, Dict, get, Text, text_eq, mem_text,
  text_eq_refl,
}
use zark.Replication.Names.{is_bpool}
use zark.Replication.Model.{Origin, Dest}
use zark.Replication.Plan.{expected}
use zark.Engine.Model.{
  Trace, exec, look_origin, look_dest, Adds-trans, Adds-weaken, Event, Read, Env, Config, Run, Adds,
}
use zark.Engine.Verdicts.{is_partial}
use zark.Engine.Points.{anchor, anchor_held, is_at, remove_points, undo_rest, undo_read, undo_point}
use zark.Engine.Points.Anchoring.{is_anchoring, anchor-Anchoring, anchor_held-Anchoring}
use zark.Retention.Prune.{target_of}

-- An event of an undo that lets the datasets of `stays` keep the point: it reads, waits or anchors, or
-- it destroys the run's point on one of the other datasets `rels`.
abbrev pub is_removal : (Text → Bool) → Config → List Text → Event → Bool
is_removal stays c rels (Event.destroy t) =
    any (λ rel. text_eq t (target_of rel c.point) && not (stays rel)) rels
is_removal stays c rels e = is_anchoring e

anchoring→removal :
    (stays : Text → Bool) (c : Config) (rels : List Text) (e : Event)
    → is_anchoring e ≡ true
    → is_removal stays c rels e ≡ true
anchoring→removal stays c rels (Event.destroy t) h = absurd (ground arith)
anchoring→removal stays c rels _ h = ground arith

abbrev pub Removes : (Text → Bool) → Config → List Text → Trace → Trace → Type 0
Removes stays c rels w u = Adds (is_removal stays c rels) w u

remove_one-Removes :
    (env : Env) (c : Config) (gone kept stays : Text → Bool) (whole : List Text) (rel : Text)
    (r : Run)
    → ((t : Text) → stays t ≡ true → kept t ≡ true)
    → Elem rel whole
    → Removes stays c whole r.trace
        (if gone rel || kept rel
          then r
          else (exec env (Event.destroy (target_of rel c.point)) r).1).trace
unfolding exec
remove_one-Removes env c gone kept stays whole rel r keep m =
    elim (Bool-cases (gone rel || kept rel)) [
      | inl y ↦ rw y Adds.none_added
      | inr n ↦
          let goes : stays rel ≡ false =
            false_of_not_true (stays rel) (λ h. ground (arith, keep rel h)) in
          let e = Event.destroy (target_of rel c.point) in
          let may : is_removal stays c whole e ≡ true =
            elem→any (λ t. text_eq (target_of rel c.point) (target_of t c.point) && not (stays t))
              rel whole m (rw (text_eq_refl (target_of rel c.point), goes) refl) in
          rw n (Adds.one_added Adds.none_added e may)
    ]

remove_points-Removes :
    (env : Env) (c : Config) (gone kept stays : Text → Bool) (whole rels : List Text) (r : Run)
    → ((rel : Text) → stays rel ≡ true → kept rel ≡ true)
    → ((rel : Text) → Elem rel rels → Elem rel whole)
    → Removes stays c whole r.trace (remove_points env c gone kept rels r).trace
unfolding remove_points
remove_points-Removes env c gone kept stays whole [] r keep sub = Adds.none_added
remove_points-Removes env c gone kept stays whole (rel ∷ rels) r keep sub =
    let later = λ (t : Text) (m : Elem t rels). sub t (inr m) in
    Adds-trans (remove_one-Removes env c gone kept stays whole rel r keep (sub rel (inl refl)))
      (remove_points-Removes env c gone kept stays whole rels _ keep later)

undo_rest-Removes :
    (env : Env) (c : Config) (gone kept : Text → Bool) (origin : Dict Origin) (r : Run)
    → r.origin ≡ origin
    → Removes kept c (expected origin c.exclusions) r.trace (undo_rest env c gone kept r).trace
unfolding undo_rest look_origin
undo_rest-Removes env c gone kept origin r same =
    Adds-trans (Adds.one_added Adds.none_added Event.read_origin refl) (
      remove_points-Removes env c _ kept kept (expected origin c.exclusions)
        (expected r.origin c.exclusions) (look_origin env r).1 (λ rel h. h)
        (λ rel m. subst (λ o. Elem rel (expected o c.exclusions)) same m))

-- the anchors that the undo makes, of what the drive holds at the point
unfoldable pub undo_anchors : Env → Config → Dict Dest → Run → List Text × Run
undo_anchors env c dest r =
    anchor env c (select (is_at c r.origin dest) (expected r.origin c.exclusions))
      (look_dest env r).1

unfoldable pub stays_read : Env → Config → Dict Dest → Run → Text → Bool
stays_read env c dest r rel =
    is_partial (get rel dest) || mem_text rel (undo_anchors env c dest r).0

-- The undo of a run that did not end well destroys nothing in origin but the run's own point on
-- expected datasets, and beyond that only reads, waits, renames and bookmarks. Where the drive can be
-- read, the point stays on every dataset with a partial receive on the drive, and on every one that
-- the drive holds at the point and that could not be anchored for it; where it cannot, the point stays
-- on every dataset that a receive began on.
pub undo_point-Removes :
    (env : Env) (c : Config) (r : Run)
    → ((m : Text)
        → env.dest r.trace ≡ Read.error m
        → Removes
            (λ rel. mem_text rel r.started)
            c
            (expected r.origin c.exclusions)
            r.trace
            (undo_point env c r).trace)
      × ((dest : Dict Dest)
          → env.dest r.trace ≡ Read.given dest
          → Removes
              (stays_read env c dest r)
              c
              (expected r.origin c.exclusions)
              r.trace
              (undo_point env c r).trace)
unfolding undo_point undo_read look_dest undo_anchors stays_read
undo_point-Removes env c r = (
  λ m e. rw e (
      Adds-trans (Adds.one_added Adds.none_added Event.read_dest refl) (
        undo_rest-Removes env c (λ rel. false) (λ rel. mem_text rel r.started) r.origin
          (look_dest env r).1 refl)),
  λ dest e.
      let at_point = select (is_at c r.origin dest) (expected r.origin c.exclusions) in
      let made = anchor env c at_point (look_dest env r).1 in
      let one = anchor-Anchoring env c at_point (look_dest env r).1 in
      let held = anchor_held env c made.1 in
      let two = anchor_held-Anchoring env c made.1 in
      let stays = stays_read env c dest r in
      let rels = expected r.origin c.exclusions in
      rw e (
        Adds-trans (Adds.one_added Adds.none_added Event.read_dest refl) (
          Adds-trans (Adds-weaken (anchoring→removal stays c rels) one.adds) (
            Adds-trans (Adds-weaken (anchoring→removal stays c rels) two.adds) (
              undo_rest-Removes env c
                (λ rel. mem_text rel at_point && (is_bpool rel && not (mem_text rel made.0))) stays
                r.origin held.1 (two.keeps ∙ one.keeps))))),
)
