-- ===== src/Engine/Drive/Calm.antt =====
-- What the parts of a run do on the drive: they leave origin alone.
use zark.Base.{
  ◌≡◌, refl, inl, inr, Bool, true, false, not, ◌&&◌, ◌||◌, List, [], ◌∷◌, if◌then◌else◌, Bool-cases,
  Dict, has_key, Text,
}
use zark.Replication.Names.{parent}
use zark.Replication.Model.{is_resume, is_at_point, transferable, Origin, Dest, DatasetPlan}
use zark.Engine.Model.{
  Trace, Read-cases, exec, look_origin, look_dest, Adds-trans, is_calm, Stream, Event, Env, Config,
  Run, Adds,
}
use zark.Engine.Sends.{is_nonempty, token_of, send_args}
use zark.Engine.Drive.{
  survey_dest, survey, dst, send_all, transfer, resume_impossible, abort_partial, discard_one,
  discard_stale_partials, clear_mark, clear_marks, ensure_container, ensure_all,
}

-- The run only adds calm events.
abbrev pub Calmly : Run → Run → Type 0
Calmly r r' = Adds is_calm r.trace r'.trace

same : {w : Trace} → Adds is_calm w w
same = Adds.none_added

either :
    {A : Type 0} {w : Trace} (b : Bool) (x y : A × Run)
    → Adds is_calm w x.1.trace
    → Adds is_calm w y.1.trace
    → Adds is_calm w (if b then x else y).1.trace
either true x y a b = a
either false x y a b = b

pub look_origin-Calmly : (env : Env) (r : Run) → Calmly r (look_origin env r).1
unfolding look_origin
look_origin-Calmly env r = Adds.one_added same Event.read_origin refl

pub look_dest-Calmly : (env : Env) (r : Run) → Calmly r (look_dest env r).1
unfolding look_dest
look_dest-Calmly env r = Adds.one_added same Event.read_dest refl

pub exec-Calmly : (env : Env) (e : Event) (r : Run) → is_calm e ≡ true → Calmly r (exec env e r).1
unfolding exec
exec-Calmly env e r h = Adds.one_added same e h

survey_dest-Calmly :
    (env : Env) (c : Config) (origin : Dict Origin) (r : Run)
    → Calmly r (survey_dest env c origin r).1
unfolding survey_dest look_dest
survey_dest-Calmly env c origin r =
    let r' : Run = record r { origin = origin } in
    elim (Read-cases (look_dest env r').0) [
      | inl (m, e) ↦ rw e (look_dest-Calmly env r')
      | inr (d, e) ↦ rw e (look_dest-Calmly env r')
    ]

pub survey-Calmly : (env : Env) (c : Config) (r : Run) → Calmly r (survey env c r).1
unfolding survey look_origin
survey-Calmly env c r = elim (Read-cases (look_origin env r).0) [
  | inl (m, e) ↦ rw e (look_origin-Calmly env r)
  | inr (o, e) ↦
      rw e
        (Adds-trans (look_origin-Calmly env r) (survey_dest-Calmly env c o (look_origin env r).1))
]

pub send_all-Calmly :
    (env : Env) (c : Config) (rel : Text) (resume : Bool) (clone : Text) (ss : List Stream)
    (r : Run)
    → Calmly r (send_all env c rel resume clone ss r).1
unfolding send_all
send_all-Calmly env c rel resume clone [] r = same
send_all-Calmly env c rel resume clone (s ∷ ss) r =
    let e = Event.send s (dst c rel) resume clone in
    let out = exec env e r in
    let one = exec-Calmly env e r refl in
    either out.0 _ _ (Adds-trans one (send_all-Calmly env c rel resume clone ss out.1)) one

pub transfer-Calmly :
    (env : Env) (c : Config) (p : DatasetPlan) (r : Run) → Calmly r (transfer env c p r).1
unfolding transfer
transfer-Calmly env c p r = either (is_at_point p.state) _ _ same (
    either (not (transferable p.state)) _ _ same (
      send_all-Calmly env c p.rel (is_resume p.state) _ (send_args c r p false)
        (record r { started = p.rel ∷ r.started })))

resume_impossible-Calmly :
    (env : Env) (rel : Text) (r : Run) → Calmly r (resume_impossible env rel r).1
unfolding resume_impossible
resume_impossible-Calmly env rel r =
    let token = token_of rel r.dest in
    let out = exec env (Event.probe token) r in
    let one = exec-Calmly env (Event.probe token) r refl in
    either (is_nonempty token) _ _ (either out.0 _ _ one one) same

pub discard_one-Calmly :
    (env : Env) (c : Config) (rel : Text) (r : Run) → Calmly r (discard_one env c rel r).2
unfolding discard_one abort_partial
discard_one-Calmly env c rel r =
    let why = resume_impossible env rel r in
    let first = resume_impossible-Calmly env rel r in
    elim (Bool-cases (is_nonempty why.0)) [
      | inl t ↦ rw t (Adds-trans first (exec-Calmly env _ why.1 refl))
      | inr t ↦ rw t first
    ]

pub discard_stale_partials-Calmly :
    (env : Env) (c : Config) (plans : List DatasetPlan) (r : Run)
    → Calmly r (discard_stale_partials env c plans r).1
unfolding discard_stale_partials
discard_stale_partials-Calmly env c [] r = same
discard_stale_partials-Calmly env c (p ∷ plans) r = elim (Bool-cases (is_resume p.state)) [
  | inl t ↦
      let out = discard_one env c p.rel r in
      let all =
        Adds-trans (discard_one-Calmly env c p.rel r)
          (discard_stale_partials-Calmly env c plans out.2) in
      rw t (either out.0 _ _ all all)
  | inr t ↦ rw t (discard_stale_partials-Calmly env c plans r)
]

clear_mark-Calmly :
    (env : Env) (c : Config) (prop : Text) (clear : Dest → Dest) (marked : Bool) (e : Text × Dest)
    (r : Run)
    → Calmly r (clear_mark env c prop clear marked e r).1
unfolding clear_mark
clear_mark-Calmly env c prop clear marked e r =
    let out = exec env (Event.inherit prop (dst c e.0)) r in
    let one = exec-Calmly env (Event.inherit prop (dst c e.0)) r refl in
    either marked _ _ (either out.0 _ _ one one) same

pub clear_marks-Calmly :
    (env : Env) (c : Config) (prop : Text) (clear : Dest → Dest) (marked : Text × Dest → Bool)
    (items : Dict Dest) (r : Run)
    → Calmly r (clear_marks env c prop clear marked items r).1
unfolding clear_marks
clear_marks-Calmly env c prop clear marked [] r = same
clear_marks-Calmly env c prop clear marked (e ∷ items) r =
    Adds-trans (clear_mark-Calmly env c prop clear (marked e) e r)
      (clear_marks-Calmly env c prop clear marked items _)

ensure_container-Calmly :
    (env : Env) (c : Config) (rel : Text) (r : Run) → Calmly r (ensure_container env c rel r).1
unfolding ensure_container
ensure_container-Calmly env c rel r =
    let out = exec env (Event.create (dst c rel)) r in
    let one = exec-Calmly env (Event.create (dst c rel)) r refl in
    either (not (has_key rel r.origin) || has_key rel r.dest) _ _ same (
      either (is_nonempty (parent rel) && not (has_key (parent rel) r.dest)) _ _ same
        (either out.0 _ _ one one))

pub ensure_all-Calmly :
    (env : Env) (c : Config) (rels : List Text) (r : Run) → Calmly r (ensure_all env c rels r).1
unfolding ensure_all
ensure_all-Calmly env c [] r = same
ensure_all-Calmly env c (rel ∷ rels) r =
    Adds-trans (ensure_container-Calmly env c rel r) (ensure_all-Calmly env c rels _)
