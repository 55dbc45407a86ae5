-- ===== src/Engine/Model.antt =====
-- lib/engine.py: what a run does, what it is answered, and the state that it keeps.
use zark.Base.{ℕ, ◌≡◌, refl, ◌⊎◌, inl, inr, Bool, true, false, Option, List, ◌∷◌, Dict, Text}
use zark.Replication.Model.{Origin, Dest}

-- One argument string of `zfs send`: `-t token`, a whole stream of `target` (raw with `-w`), `-I from`
-- and `-w -i from` up to a target.
pub data Stream : Type 0 where
  resumed : Text → Stream
  whole : Bool → Text → Stream
  since : Bool → Text → Text → Stream
  from_bookmark : Text → Text → Stream

-- A command or a read, with what its arguments name. Datasets of the drive have its pool's name in
-- front, those of origin have none. `send` has the dataset, whether it resumes, and the clone's origin.
pub data Event : Type 0 where
  read_origin read_dest read_owners : Event
  ask_timer stop_timer start_timer ask_units sleep : Event
  write_marker remove_marker : Event
  copy_boot : Event
  snapshot : List Text → Event
  send : Stream → Text → Bool → Text → Event
  probe : Text → Event
  receive_abort : Text → Event
  inherit : Text → Text → Event
  create : Text → Event
  rename : Text → Text → Event
  bookmark : Text → Text → Event
  destroy : Text → Event

-- what the run has done, the latest first
abbrev pub Trace : Type 0
Trace = List Event

-- A strict read gives what is there, or raises ReadError with a message.
pub data Read (A : Type 0) : Type 0 where
  given : A → Read A
  error : Text → Read A

pub Read-cases :
    {A : Type 0} (m : Read A) → ((t : Text) × (m ≡ Read.error t)) ⊎ ((a : A) × (m ≡ Read.given a))
Read-cases (Read.given a) = inr (a, refl)
Read-cases (Read.error t) = inl (t, refl)

-- `RunResult`, beside its success: the lines of what was printed. `left` and `right` are the standard
-- errors of the sides of a pipe.
pub record Printed : Type 0 where
  pub stdout : List Text
  pub stderr : List Text
  pub left : List Text
  pub right : List Text
  pub returncode : ℕ

-- What the run is answered, by what it has done so far.
pub record Env : Type 0 where
  pub succeeds : Trace → Event → Bool
  pub origin : Trace → Read (Dict Origin)
  pub dest : Trace → Read (Dict Dest)
  pub owners : Trace → Read (Dict Text)
  pub timer : Trace → Text
  pub marker : Trace → Bool
  pub units_busy : Trace → Bool
  pub guids : Text → Text → Trace → Option (List Text)
  pub printed : Trace → Event → Printed

-- The fields of `Run` that stay as they are.
pub record Config : Type 0 where
  pub pool : Text
  pub disk_guid : Text
  pub point : Text
  pub pools : List Text
  pub exclusions : List Text
  pub ext4 : Bool
  pub has_before_point : Bool

-- The fields that change, and the trace. The flag of `resume_sanoid` stands in Engine/Whole.
pub record Run : Type 0 where
  pub origin : Dict Origin
  pub dest : Dict Dest
  pub started : List Text
  pub trace : Trace

pub record Outcome : Type 0 where
  pub rel : Text
  pub ok : Bool
  pub error : Text
  pub enospc : Bool

-- `Verdict`
pub record Verdict : Type 0 where
  pub target : Text
  pub drop : Bool
  pub reason : Text
  pub owner : Text

-- a command, and whether it succeeds
unfoldable pub exec : Env → Event → Run → Bool × Run
exec env e r = (env.succeeds r.trace e, record r { trace = e ∷ r.trace })

-- `self.origin = read_origin(...)`, without the change of the field
unfoldable pub look_origin : Env → Run → Read (Dict Origin) × Run
look_origin env r = (env.origin r.trace, record r { trace = Event.read_origin ∷ r.trace })

unfoldable pub look_dest : Env → Run → Read (Dict Dest) × Run
look_dest env r = (env.dest r.trace, record r { trace = Event.read_dest ∷ r.trace })

unfoldable pub look_owners : Env → Run → Read (Dict Text) × Run
look_owners env r = (env.owners r.trace, record r { trace = Event.read_owners ∷ r.trace })

-- Everything that was done after `w` is of one kind.
pub data Adds (P : Event → Bool) (w : Trace) : Trace → Type 0 where
  none_added : Adds P w w
  one_added : {u : Trace} → Adds P w u → (e : Event) → P e ≡ true → Adds P w (e ∷ u)

pub Adds-trans : {P : Event → Bool} {w u v : Trace} → Adds P w u → Adds P u v → Adds P w v
Adds-trans a none_added = a
Adds-trans a (one_added b e h) = one_added (Adds-trans a b) e h

pub Adds-weaken :
    {P Q : Event → Bool} {w u : Trace}
    → ((e : Event) → P e ≡ true → Q e ≡ true)
    → Adds P w u
    → Adds Q w u
Adds-weaken f none_added = none_added
Adds-weaken f (one_added a e h) = one_added (Adds-weaken f a) e (f e h)

-- It leaves the timer alone.
abbrev pub is_untimed : Event → Bool
is_untimed Event.stop_timer = false
is_untimed Event.start_timer = false
is_untimed _ = true

-- It changes nothing in origin, and leaves the timer alone.
abbrev pub is_calm : Event → Bool
is_calm Event.stop_timer = false
is_calm Event.start_timer = false
is_calm (Event.snapshot names) = false
is_calm (Event.rename a b) = false
is_calm (Event.bookmark a b) = false
is_calm (Event.destroy a) = false
is_calm _ = true

pub calm→untimed : (e : Event) → is_calm e ≡ true → is_untimed e ≡ true
calm→untimed Event.stop_timer h = h
calm→untimed Event.start_timer h = h
calm→untimed Event.read_origin h = refl
calm→untimed Event.read_dest h = refl
calm→untimed Event.read_owners h = refl
calm→untimed Event.ask_timer h = refl
calm→untimed Event.ask_units h = refl
calm→untimed Event.sleep h = refl
calm→untimed Event.write_marker h = refl
calm→untimed Event.remove_marker h = refl
calm→untimed Event.copy_boot h = refl
calm→untimed (Event.snapshot names) h = refl
calm→untimed (Event.send s d b c) h = refl
calm→untimed (Event.probe t) h = refl
calm→untimed (Event.receive_abort d) h = refl
calm→untimed (Event.inherit p d) h = refl
calm→untimed (Event.create d) h = refl
calm→untimed (Event.rename a b) h = refl
calm→untimed (Event.bookmark a b) h = refl
calm→untimed (Event.destroy a) h = refl
