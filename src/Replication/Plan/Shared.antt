-- ===== src/Replication/Plan/Shared.antt =====
-- `shared_snapshots`: what the drive shares with origin besides its anchors.
use mathlib.Core.Path.{subst}
use zark.Base.{
  ◌≡◌, refl, sym, ◌∙◌, ◌⊎◌, inl, inr, Bool, true, false, not, ◌&&◌, Option, none, some, List, [],
  ◌∷◌, map, arith, if◌then◌else◌, Bool-cases, Option-cases, Elem, select, get_last?, IsSorted,
  elem-sort_by_iff, sort_by-IsSorted, Dict, get, put, keys, values, Text, text_eq, mem_text,
  text_eq_iff, text_eq_sym, IsDistinct, elem-values, get-put, elem-values-put, get→elem-values,
  IsDistinct-put, elem→get, elem-put,
}
use zark.Replication.Names.{shared_kind}
use zark.Replication.Model.{Ref, Origin, Dest}
use zark.Replication.Plan.{newest_shared, txg_le, shared_of}

-- A snapshot of a kind that sanoid or syncoid writes, which the drive holds by guid.
abbrev pub shares : List Text → Ref → Bool
shares held s = not (text_eq (shared_kind s.name) []) && mem_text s.guid held

newest_shared_sound :
    (held : List Text) (snaps : List Ref) (out : Dict Ref) (r : Ref)
    → Elem r (values (newest_shared held snaps out))
    → (Elem r snaps × (shares held r ≡ true)) ⊎ Elem r (values out)
unfolding newest_shared
newest_shared_sound held [] out r m = inr m
newest_shared_sound held (s ∷ snaps) out r m = elim (Bool-cases (shares held s)) [
  | inl t ↦
      elim (newest_shared_sound held snaps (put (shared_kind s.name) s out) r
        (rw (t, newest_shared) at m)) [
          | inl k ↦ inl (inr k.0, k.1)
          | inr k ↦ elim (elem-values-put r (shared_kind s.name) s out k) [
            | inl same ↦ inl (inl same, rw (← same) t)
            | inr n ↦ inr n
          ]
        ]
  | inr t ↦ elim (newest_shared_sound held snaps out r (rw (t, newest_shared) at m)) [
    | inl k ↦ inl (inr k.0, k.1)
    | inr n ↦ inr n
  ]
]

abbrev pub or_else : Option Ref → Option Ref → Option Ref
or_else none b = b
or_else (some a) b = some a

get_last?-cons : (x : Ref) (xs : List Ref) → get_last? (x ∷ xs) ≡ or_else (get_last? xs) (some x)
unfolding get_last?
get_last?-cons x [] = refl
get_last?-cons x (y ∷ []) = refl
get_last?-cons x (y ∷ z ∷ xs) = ground (arith, get_last?-cons z xs)

-- The snapshots of one kind that both sides hold.
abbrev pub of_kind : List Text → Text → Ref → Bool
of_kind held kind s = text_eq (shared_kind s.name) kind && mem_text s.guid held

newest_shared-last :
    (held : List Text) (kind : Text) (snaps : List Ref) (out : Dict Ref)
    → text_eq kind [] ≡ false
    → get kind (newest_shared held snaps out)
      ≡ or_else (get_last? (select (of_kind held kind) snaps)) (get kind out)
unfolding newest_shared select
newest_shared-last held kind [] out h = unfold get_last? in refl
newest_shared-last held kind (s ∷ snaps) out h =
    let k = shared_kind s.name in
    newest_shared-last held kind snaps (if shares held s then put k s out else out) h
    ∙ ground (
      arith,
      get-put kind k s out,
      text_eq_iff k kind,
      text_eq_sym k kind,
      get_last?-cons s (select (of_kind held kind) snaps),
    )

-- Each entry stands under its own kind, and no kind stands twice.
record IsKeyed (out : Dict Ref) : Type 0 where
  once : IsDistinct (keys out)
  own_kind : (e : Text × Ref) → Elem e out → (e.0 ≡ shared_kind e.1.name) × (text_eq e.0 [] ≡ false)

put-IsKeyed :
    (s : Ref) (out : Dict Ref)
    → text_eq (shared_kind s.name) [] ≡ false
    → IsKeyed out
    → IsKeyed (put (shared_kind s.name) s out)
put-IsKeyed s out named h = record {
  once = IsDistinct-put (shared_kind s.name) s out h.once;
  own_kind = λ e m. elim (elem-put e (shared_kind s.name) s out m) [
    | inl same ↦
        subst (λ (x : Text × Ref). (x.0 ≡ shared_kind x.1.name) × (text_eq x.0 [] ≡ false)) same
          ((refl, named))
    | inr n ↦ h.own_kind e n
  ];
}

newest_shared-IsKeyed :
    (held : List Text) (snaps : List Ref) (out : Dict Ref)
    → IsKeyed out
    → IsKeyed (newest_shared held snaps out)
unfolding newest_shared
newest_shared-IsKeyed held [] out h = h
newest_shared-IsKeyed held (s ∷ snaps) out h = elim (Bool-cases (shares held s)) [
  | inl t ↦
      rw (t, newest_shared)
        (newest_shared-IsKeyed held snaps _ (put-IsKeyed s out (ground arith) h))
  | inr t ↦ rw (t, newest_shared) (newest_shared-IsKeyed held snaps out h)
]

-- what is kept is the last one of its kind
newest_shared-is_last :
    (held : List Text) (snaps : List Ref) (r : Ref)
    → Elem r (values (newest_shared held snaps []))
    → get_last? (select (of_kind held (shared_kind r.name)) snaps) ≡ some r
unfolding keys get
newest_shared-is_last held snaps r m =
    let found = newest_shared held snaps [] in
    let keyed : IsKeyed found =
      newest_shared-IsKeyed held snaps [] (record { once = tt; own_kind = λ e k. elim k [ ] }) in
    let (k, at) = elem-values r found m in
    let (own, named) = keyed.own_kind (k, r) at in
    let there : get k found ≡ some r = elem→get k r found keyed.once at in
    let last = newest_shared-last held k snaps [] named in
    let kind : get_last? (select (of_kind held k) snaps) ≡ some r =
      elim (Option-cases (get_last? (select (of_kind held k) snaps))) [
        | inl e ↦ absurd (cc (rw e at last, there))
        | inr (x, e) ↦ e ∙ (sym (rw e at last) ∙ there)
      ] in
    subst (λ n. get_last? (select (of_kind held n) snaps) ≡ some r) own kind

txg_le-total : (a b : Ref) → (txg_le a b ≡ true) ⊎ (txg_le b a ≡ true)
txg_le-total a b = ground arith

txg_le_trans : (a b c : Ref) → txg_le a b ≡ true → txg_le b c ≡ true → txg_le a c ≡ true
txg_le_trans a b c h k = ground arith

abbrev pub held_guids : Option Dest → List Text
held_guids none = []
held_guids (some d) = map (λ s. s.guid) d.snaps

-- What a dataset shares with the drive are snapshots of origin of a kind that sanoid or syncoid
-- writes, each held by the drive by guid, in the order of `createtxg`; each is the last one in origin's
-- listing of its kind that the drive holds, and each kind's last one is there.
pub shared_of_sound :
    (o : Origin) (d : Option Dest)
    → ((r : Ref) → Elem r (shared_of o d) → Elem r o.snaps × (shares (held_guids d) r ≡ true))
      × (IsSorted txg_le (shared_of o d)
          × ((r : Ref)
              → Elem r (shared_of o d)
              → get_last? (select (of_kind (held_guids d) (shared_kind r.name)) o.snaps) ≡ some r)
          × ((kind : Text) (r : Ref)
              → text_eq kind [] ≡ false
              → get_last? (select (of_kind (held_guids d) kind) o.snaps) ≡ some r
              → Elem r (shared_of o d)))
unfolding shared_of values
shared_of_sound o d =
    let held = held_guids d in
    let found = newest_shared held o.snaps [] in
    (
      λ r m.
          elim (newest_shared_sound held o.snaps [] r
            ((elem-sort_by_iff txg_le r (values found)).0 m)) [ inl k ↦ k | inr n ↦ elim n [ ] ],
      (
        sort_by-IsSorted txg_le txg_le-total txg_le_trans (values found),
        λ r m.
            newest_shared-is_last held o.snaps r ((elem-sort_by_iff txg_le r (values found)).0 m),
        λ kind r h e.
            (elem-sort_by_iff txg_le r (values found)).1
              (get→elem-values kind found (newest_shared-last held kind o.snaps [] h ∙ rw e)),
      ),
    )
