-- ===== src/Engine/Points/Untimed.antt =====
-- What a run does to origin leaves the timer alone.
use zark.Base.{
  ◌≡◌, refl, inl, inr, Bool, true, false, not, ◌||◌, List, [], ◌∷◌, if◌then◌else◌, Text, before,
  after,
}
use zark.Replication.Names.{is_bpool}
use zark.Anchors.{anchor_point, release_point}
use zark.Engine.Model.{
  Trace, Read-cases, exec, look_dest, look_owners, Adds-trans, Adds-weaken, is_untimed, is_calm,
  calm→untimed, Event, Env, Config, Run, Verdict, Adds,
}
use zark.Engine.Sends.{is_nonempty}
use zark.Engine.Verdicts.{drop_check}
use zark.Engine.Points.{
  origin_commands, anchor, anchor_held, drop_one, drop_all, remove_points, undo_rest, undo_read,
  undo_point,
}
use zark.Engine.Drive.Calm.{look_origin-Calmly, look_dest-Calmly}
use zark.Engine.Points.Anchoring.{
  anchoring→untimed, anchor_point-Anchoring, anchor-Anchoring, anchor_held-Anchoring,
}

-- The run leaves the timer alone.
abbrev pub Untimed : Run → Run → Type 0
Untimed r r' = Adds is_untimed r.trace r'.trace

abbrev pub quiet : {w u : Trace} → Adds is_calm w u → Adds is_untimed w u
quiet a = Adds-weaken calm→untimed a

same : {w : Trace} → Adds is_untimed w w
same = Adds.none_added

either_run :
    {w : Trace} (b : Bool) (x y : Run)
    → Adds is_untimed w x.trace
    → Adds is_untimed w y.trace
    → Adds is_untimed w (if b then x else y).trace
either_run true x y a b = a
either_run false x y a b = b

either :
    {A : Type 0} {w : Trace} (b : Bool) (x y : A × Run)
    → Adds is_untimed w x.1.trace
    → Adds is_untimed w y.1.trace
    → Adds is_untimed w (if b then x else y).1.trace
either true x y a b = a
either false x y a b = b

pub exec-Untimed :
    (env : Env) (e : Event) (r : Run) → is_untimed e ≡ true → Untimed r (exec env e r).1
unfolding exec
exec-Untimed env e r h = Adds.one_added same e h

anchor_point-Untimed :
    (env : Env) (rel point guid : Text) (r : Run)
    → Untimed r (anchor_point (origin_commands env) rel point guid r).1
anchor_point-Untimed env rel point guid r =
    Adds-weaken anchoring→untimed (anchor_point-Anchoring env rel point guid r).adds

release_point-Untimed :
    (env : Env) (target owner : Text) (r : Run)
    → Untimed r (release_point (origin_commands env) target owner r).1
unfolding release_point origin_commands
release_point-Untimed env target owner r =
    let rel = before b'@' target in
    let made = anchor_point (origin_commands env) rel (after b'@' target) owner r in
    let one = anchor_point-Untimed env rel (after b'@' target) owner r in
    either (not made.0) _ _ one (
      either (is_bpool rel) _ _ one
        (Adds-trans one (exec-Untimed env (Event.destroy target) made.1 refl)))

pub anchor-Untimed :
    (env : Env) (c : Config) (rels : List Text) (r : Run) → Untimed r (anchor env c rels r).1
anchor-Untimed env c rels r = Adds-weaken anchoring→untimed (anchor-Anchoring env c rels r).adds

pub anchor_held-Untimed : (env : Env) (c : Config) (r : Run) → Untimed r (anchor_held env c r).1
anchor_held-Untimed env c r = Adds-weaken anchoring→untimed (anchor_held-Anchoring env c r).adds

pub drop_check-Untimed : (env : Env) (c : Config) (r : Run) → Untimed r (drop_check env c r).1
unfolding drop_check look_owners
drop_check-Untimed env c r =
    Adds-trans (quiet (look_origin-Calmly env r))
      (Adds.one_added (quiet (look_dest-Calmly env _)) Event.read_owners refl)

pub drop_all-Untimed : (env : Env) (vs : List Verdict) (r : Run) → Untimed r (drop_all env vs r).1
unfolding drop_all drop_one
drop_all-Untimed env [] r = same
drop_all-Untimed env (v ∷ vs) r =
    Adds-trans
      (either (not v.drop) _ _ same (
        either (is_nonempty v.owner) _ _ (release_point-Untimed env v.target v.owner r)
          (exec-Untimed env (Event.destroy v.target) r refl)))
      (drop_all-Untimed env vs _)

remove_points-Untimed :
    (env : Env) (c : Config) (gone kept : Text → Bool) (rels : List Text) (r : Run)
    → Untimed r (remove_points env c gone kept rels r)
unfolding remove_points
remove_points-Untimed env c gone kept [] r = same
remove_points-Untimed env c gone kept (rel ∷ rels) r =
    Adds-trans (either_run (gone rel || kept rel) _ _ same (exec-Untimed env _ r refl))
      (remove_points-Untimed env c gone kept rels _)

undo_rest-Untimed :
    (env : Env) (c : Config) (gone kept : Text → Bool) (r : Run)
    → Untimed r (undo_rest env c gone kept r)
unfolding undo_rest
undo_rest-Untimed env c gone kept r =
    Adds-trans (quiet (look_origin-Calmly env r)) (remove_points-Untimed env c _ _ _ _)

pub undo_point-Untimed : (env : Env) (c : Config) (r : Run) → Untimed r (undo_point env c r)
unfolding undo_point undo_read look_dest
undo_point-Untimed env c r =
    let d = look_dest env r in
    let first = quiet (look_dest-Calmly env r) in
    elim (Read-cases d.0) [
      | inl (m, e) ↦ rw e (Adds-trans first (undo_rest-Untimed env c _ _ d.1))
      | inr (dest, e) ↦ rw e (
          Adds-trans first (
            Adds-trans (anchor-Untimed env c _ d.1)
              (Adds-trans (anchor_held-Untimed env c _) (undo_rest-Untimed env c _ _ _))))
    ]
