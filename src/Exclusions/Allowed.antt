-- ===== src/Exclusions/Allowed.antt =====
-- `parse`: what can be declared as excluded.
use mathlib.Core.Path.{subst}
use zark.Base.{
  ◌≡◌, refl, ◌≢◌, inl, inr, true, false, ◌||◌, Option, none, some, List, [], ◌∷◌, arith, Bool-cases,
  Option-cases, Elem, List-cases, find_first, find_first-eq-none, sort_by, elem-sort_by_iff, Dict,
  get, keys, values, Text, codes, text_le, mem_text, ne→text_eq, elem-put,
}
use zark.Replication.Names.{is_under, is_bpool, is_archived, keystore, structural}
use zark.Replication.Model.{Origin}
use zark.Replication.Plan.{is_volume}
use zark.Exclusions.{
  replicate_prop, snapshot_prop, rules, first_hit, is_never, holds_never, never_excluded, is_no,
  declare, declare_all, parse, Exclusion, Declared,
}

-- No rule of `never_excluded` hits the dataset, and none that goes by the name hits one below it that
-- origin has.
pub record IsAllowed (origin : Dict Origin) (rel : Text) : Type 0 where
  pub no_root : is_under rel (codes "rpool/ROOT") ≡ false
  pub no_boot : is_bpool rel ≡ false
  pub no_keystore : is_under rel keystore ≡ false
  pub no_container : mem_text rel structural ≡ false
  pub no_archive : is_archived rel ≡ false
  pub no_volume : (o : Origin) → get rel origin ≡ some o → is_volume o ≡ false
  pub holds_none :
      (x : Text) → Elem x (keys origin) → is_under x rel ≡ true → x ≢ rel → is_never x ≡ false

first_hit-rules :
    (rel : Text) (o : Option Origin)
    → first_hit (rules rel o) ≡ []
    → (is_under rel (codes "rpool/ROOT") ≡ false)
      × (is_bpool rel ≡ false)
      × (is_under rel keystore ≡ false)
      × (mem_text rel structural ≡ false)
      × (is_archived rel ≡ false)
      × ((d : Origin) → o ≡ some d → is_volume d ≡ false)
unfolding first_hit rules
first_hit-rules rel none h =
    (ground arith, ground arith, ground arith, ground arith, ground arith, λ d e. absurd (cc e))
first_hit-rules rel (some x) h =
    (ground arith, ground arith, ground arith, ground arith, ground arith, λ d e. ground arith)

never_excluded-facts :
    (rel : Text) (origin : Dict Origin)
    → never_excluded rel origin ≡ []
    → (first_hit (rules rel (get rel origin)) ≡ [])
      × (find_first (holds_never rel) (sort_by text_le (keys origin)) ≡ none)
unfolding never_excluded
never_excluded-facts rel origin h = elim (List-cases (first_hit (rules rel (get rel origin)))) [
  | inr (c, w, e) ↦ absurd (ground arith)
  | inl e ↦ elim (Option-cases (find_first (holds_never rel) (sort_by text_le (keys origin)))) [
    | inr (x, e') ↦ absurd (ground arith)
    | inl e' ↦ (e, e')
  ]
]

never_excluded-IsAllowed :
    (rel : Text) (origin : Dict Origin) → never_excluded rel origin ≡ [] → IsAllowed origin rel
never_excluded-IsAllowed rel origin h =
    let (none_hit, none_below) = never_excluded-facts rel origin h in
    let r = first_hit-rules rel (get rel origin) none_hit in
    record {
      no_root = r.0;
      no_boot = r.1;
      no_keystore = r.2;
      no_container = r.3;
      no_archive = r.4;
      no_volume = r.5;
      holds_none = λ x m u ne.
          let no : holds_never rel x ≡ false =
            find_first-eq-none (holds_never rel) x (sort_by text_le (keys origin)) none_below
              ((elem-sort_by_iff text_le x (keys origin)).1 m) in
          unfold holds_never in ground (arith, no, ne→text_eq x rel ne);
    }

-- a declared top, and that one of its flags is set
abbrev IsDeclared : Dict Origin → Text × Exclusion → Type 0
IsDeclared origin e =
    (e.1.top ≡ e.0) × ((e.1.replicate || e.1.snapshot) ≡ true) × IsAllowed origin e.0

declare-IsDeclared :
    (origin : Dict Origin) (rel : Text) (props : Dict Text) (d : Declared)
    → ((e : Text × Exclusion) → Elem e d.tops → IsDeclared origin e)
    → (e : Text × Exclusion) → Elem e (declare origin rel props d).tops
    → IsDeclared origin e
unfolding declare
declare-IsDeclared origin rel props d a =
    elim (Bool-cases (is_no replicate_prop props || is_no snapshot_prop props)) [
      | inr t ↦ rw t a
      | inl t ↦ elim (List-cases (never_excluded rel origin)) [
        | inr (c, w, e) ↦ rw (t, e) a
        | inl e ↦
            rw (t, e)
              (λ x m. elim (elem-put x rel _ d.tops m) [
                | inl same ↦
                    subst (IsDeclared origin) same (refl, t, never_excluded-IsAllowed rel origin e)
                | inr k ↦ a x k
              ])
      ]
    ]

declare_all-IsDeclared :
    (origin : Dict Origin) (values : Dict (Dict Text)) (d : Declared)
    → ((e : Text × Exclusion) → Elem e d.tops → IsDeclared origin e)
    → (e : Text × Exclusion) → Elem e (declare_all origin values d).tops
    → IsDeclared origin e
unfolding declare_all
declare_all-IsDeclared origin [] d a = a
declare_all-IsDeclared origin ((rel, props) ∷ values) d a =
    declare_all-IsDeclared origin values (declare origin rel props d)
      (declare-IsDeclared origin rel props d a)

-- Whatever properties were set in origin, a dataset that is read as excluded is excluded from backups,
-- from snapshots or both, and is none that never is: no boot environment, nothing of the boot pool or
-- the keystore, no structural container, no archived name, no volume; and no dataset of origin below it
-- is, by its name, such a one either. A volume below it, which a name does not tell, may be there.
pub parse-IsAllowed :
    (lines : List Text) (origin : Dict Origin) (rel : Text) (e : Exclusion)
    → Elem (rel, e) (parse lines origin).tops
    → (e.top ≡ rel) × ((e.replicate || e.snapshot) ≡ true) × IsAllowed origin rel
unfolding parse
parse-IsAllowed lines origin rel e m =
    declare_all-IsDeclared origin _ _ (λ x k. elim k [ ]) (rel, e) m
