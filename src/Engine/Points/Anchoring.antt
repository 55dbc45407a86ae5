-- ===== src/Engine/Points/Anchoring.antt =====
-- The anchors that a run makes: it reads, waits, and renames or bookmarks.
use zark.Base.{
  ◌≡◌, refl, ◌∙◌, inl, inr, Bool, true, false, not, List, [], ◌∷◌, arith, if◌then◌else◌,
  Option-cases, Dict, get, has_key, Text,
}
use zark.Replication.Names.{is_bpool}
use zark.Replication.Model.{Origin, Dest}
use zark.Anchors.{anchor_point}
use zark.Engine.Model.{
  exec, look_origin, look_dest, Adds-trans, is_untimed, Event, Read, Env, Config, Run, Adds,
}
use zark.Engine.Points.{
  origin_commands, anchor_again, anchor_one, anchor, held_snap, hold_one, hold_all, hold_reads,
  anchor_held,
}

-- It reads, waits, or makes an anchor.
abbrev pub is_anchoring : Event → Bool
is_anchoring Event.read_origin = true
is_anchoring Event.read_dest = true
is_anchoring Event.sleep = true
is_anchoring (Event.rename a b) = true
is_anchoring (Event.bookmark a b) = true
is_anchoring _ = false

pub anchoring→untimed : (e : Event) → is_anchoring e ≡ true → is_untimed e ≡ true
anchoring→untimed Event.stop_timer h = absurd (ground arith)
anchoring→untimed Event.start_timer h = absurd (ground arith)
anchoring→untimed _ h = ground arith

-- The run only adds such events, and keeps what its last survey read of origin.
pub record Anchoring (r r' : Run) : Type 0 where
  pub adds : Adds is_anchoring r.trace r'.trace
  pub keeps : r'.origin ≡ r.origin

same : {r : Run} → Anchoring r r
same = record { adds = Adds.none_added; keeps = refl }

Anchoring-trans : {r s t : Run} → Anchoring r s → Anchoring s t → Anchoring r t
Anchoring-trans a b = record { adds = Adds-trans a.adds b.adds; keeps = b.keeps ∙ a.keeps }

either :
    {A : Type 0} {r : Run} (b : Bool) (x y : A × Run)
    → Anchoring r x.1
    → Anchoring r y.1
    → Anchoring r (if b then x else y).1
either true x y a b = a
either false x y a b = b

exec-Anchoring :
    (env : Env) (e : Event) (r : Run) → is_anchoring e ≡ true → Anchoring r (exec env e r).1
unfolding exec
exec-Anchoring env e r h = record { adds = Adds.one_added Adds.none_added e h; keeps = refl }

look_origin-Anchoring : (env : Env) (r : Run) → Anchoring r (look_origin env r).1
unfolding look_origin
look_origin-Anchoring env r = record {
  adds = Adds.one_added Adds.none_added Event.read_origin refl;
  keeps = refl;
}

look_dest-Anchoring : (env : Env) (r : Run) → Anchoring r (look_dest env r).1
unfolding look_dest
look_dest-Anchoring env r = record {
  adds = Adds.one_added Adds.none_added Event.read_dest refl;
  keeps = refl;
}

pub anchor_point-Anchoring :
    (env : Env) (rel point guid : Text) (r : Run)
    → Anchoring r (anchor_point (origin_commands env) rel point guid r).1
unfolding anchor_point origin_commands
anchor_point-Anchoring env rel point guid r =
    either (is_bpool rel) _ _ (exec-Anchoring env _ r refl)
      (either _ _ _ (exec-Anchoring env _ r refl) (exec-Anchoring env _ r refl))

anchor_one-Anchoring :
    (env : Env) (c : Config) (rel : Text) (r : Run) → Anchoring r (anchor_one env c rel r).1
unfolding anchor_one anchor_again
anchor_one-Anchoring env c rel r =
    let out = anchor_point (origin_commands env) rel c.point c.disk_guid r in
    let one = anchor_point-Anchoring env rel c.point c.disk_guid r in
    either (not (has_key rel r.origin)) _ _ same (
      either out.0 _ _ one (
        Anchoring-trans one (
          Anchoring-trans (exec-Anchoring env Event.sleep out.1 refl)
            (anchor_point-Anchoring env rel c.point c.disk_guid _))))

pub anchor-Anchoring :
    (env : Env) (c : Config) (rels : List Text) (r : Run) → Anchoring r (anchor env c rels r).1
unfolding anchor
anchor-Anchoring env c [] r = same
anchor-Anchoring env c (rel ∷ rels) r =
    Anchoring-trans (anchor_one-Anchoring env c rel r) (anchor-Anchoring env c rels _)

hold_one-Anchoring :
    (env : Env) (c : Config) (origin : Dict Origin) (dest : Dict Dest) (rel : Text) (r : Run)
    → Anchoring r (hold_one env c origin dest rel r).1
unfolding hold_one
hold_one-Anchoring env c origin dest rel r = elim (Option-cases (get rel origin)) [
  | inl e ↦ rw (hold_one, e) same
  | inr (o, e) ↦ elim (Option-cases (held_snap c rel o (get rel dest))) [
    | inl f ↦ rw (hold_one, e, f) same
    | inr (s, f) ↦ rw (hold_one, e, f) (either _ _ _ same (exec-Anchoring env _ r refl))
  ]
]

hold_all-Anchoring :
    (env : Env) (c : Config) (origin : Dict Origin) (dest : Dict Dest) (rels : List Text) (r : Run)
    → Anchoring r (hold_all env c origin dest rels r).1
unfolding hold_all
hold_all-Anchoring env c origin dest [] r = same
hold_all-Anchoring env c origin dest (rel ∷ rels) r =
    Anchoring-trans (hold_one-Anchoring env c origin dest rel r)
      (hold_all-Anchoring env c origin dest rels _)

hold_reads-Anchoring :
    (env : Env) (c : Config) (o : Read (Dict Origin)) (d : Read (Dict Dest)) (r : Run)
    → Anchoring r (hold_reads env c o d r).1
unfolding hold_reads
hold_reads-Anchoring env c (Read.given o) (Read.given d) r = hold_all-Anchoring env c o d _ r
hold_reads-Anchoring env c (Read.given o) (Read.error m) r = same
hold_reads-Anchoring env c (Read.error m) d r = same

pub anchor_held-Anchoring : (env : Env) (c : Config) (r : Run) → Anchoring r (anchor_held env c r).1
unfolding anchor_held
anchor_held-Anchoring env c r =
    Anchoring-trans ((look_origin-Anchoring env r))
      (Anchoring-trans ((look_dest-Anchoring env _)) (hold_reads-Anchoring env c _ _ _))
