-- ===== src/Reclaim/Destroy/Account.antt =====
-- `destroy_snapshots`: every target went or failed, and is so once.
use mathlib.Core.Path.{subst}
use zark.Base.{
  ℕ, ◌+◌, ◌≡◌, refl, ap, ◌∙◌, inl, inr, true, false, List, [], ◌∷◌, ◌++◌, map, arith, Bool-cases,
  length, Elem, elem-append_iff, elem-map, Dict, Text, length-append, length-map, occurs,
  occurs-append, Accounted,
}
use zark.Reclaim.Measure.{join}
use zark.Reclaim.Destroy.{
  destroy_group, Target, groups_of, singles_of, chunks, full_name, destroy_chunk, destroy_chunks,
  destroy_groups, destroy_one, destroy_singles, destroy_snapshots, Zfs, Progress,
}
use zark.Reclaim.Destroy.Tally.{
  full_names, names_in, names_in-append, in_chunks, in_groups, in_items-nil, in_chunks-chunk_go,
  in_groups-groups_of,
}

-- A name whose destroy succeeded: its own command, or the one of a group of snapshots of a dataset.
pub data Went {S : Type 0} (z : Zfs S) : Text → Type 0 where
  alone : (name : Text) (v : S) → (z.destroy name v).0 ≡ true → Went z name
  grouped :
      (ds : Text) (items : List Target) (item : Target) (v : S)
      → Elem item items
      → (z.destroy (ds ++ (b'@' ∷ join b',' (map (λ i. i.0) items))) v).0 ≡ true
      → Went z (ds ++ (b'@' ∷ item.0))

abbrev pub Refused : {S : Type 0} → Zfs S → Text → Type 0
Refused {S} z name = (v : S) × ((z.destroy name v).0 ≡ false)

module _ {S : Type 0} (z : Zfs S) where
  -- What the first loop has dealt with, `f` telling how often each name was met.
  record Settled (f : Text → ℕ) (p : Progress S) : Type 0 where
    gone : List Text
    counted : p.count ≡ length gone
    none_failed : p.failed ≡ []
    each_once : (k : Text) → occurs k gone + occurs k (names_in p.singles) ≡ f k
    all_went : (k : Text) → Elem k gone → Went z k

  full_names-Went :
      (ds : Text) (items : List Target) (v : S)
      → (z.destroy (ds ++ (b'@' ∷ join b',' (map (λ i. i.0) items))) v).0 ≡ true
      → (k : Text) → Elem k (full_names ds items)
      → Went z k
  full_names-Went ds items v ok k m =
      let (full, at, e) = elem-map (λ (i : Target). i.0) k (map (full_name ds) items) m in
      let (item, here, e') = elem-map (full_name ds) full items at in
      subst (Went z) (ap (λ (x : Target). x.0) e' ∙ e) (Went.grouped ds items item v here ok)

  to_singles :
      (f : Text → ℕ) (ds : Text) (c : List Target) (p : Progress S) (w : S)
      → Settled f p
      → Settled
          (λ k. f k + occurs k (full_names ds c))
          (record p { singles = p.singles ++ map (full_name ds) c; world = w })
  to_singles f ds c p w h = record {
    gone = h.gone;
    counted = h.counted;
    none_failed = h.none_failed;
    each_once = λ k.
        let split : occurs k (names_in (p.singles ++ map (full_name ds) c))
            ≡ occurs k (names_in p.singles) + occurs k (full_names ds c) =
          ap (occurs k) (names_in-append p.singles (map (full_name ds) c))
          ∙ occurs-append k (names_in p.singles) (full_names ds c) in
        omega (arith, h.each_once k, split);
    all_went = h.all_went;
  }

  destroy_chunk-Settled :
      (f : Text → ℕ) (ds : Text) (c : List Target) (p : Progress S)
      → Settled f p
      → Settled (λ k. f k + occurs k (full_names ds c)) (destroy_chunk z ds c p)
  unfolding destroy_chunk occurs
  destroy_chunk-Settled f ds [] p h = record {
    gone = h.gone;
    counted = h.counted;
    none_failed = h.none_failed;
    each_once = λ k. omega (arith, h.each_once k);
    all_went = h.all_went;
  }
  destroy_chunk-Settled f ds (x ∷ []) p h = to_singles f ds (x ∷ []) p p.world h
  destroy_chunk-Settled f ds (x ∷ y ∷ ys) p h =
      let items : List Target = x ∷ y ∷ ys in
      elim (Bool-cases (z.destroy (ds ++ (b'@' ∷ join b',' (map (λ i. i.0) items))) p.world).0) [
        | inr t ↦ rw t (to_singles f ds items p _ h)
        | inl t ↦ rw t (record {
          gone = h.gone ++ full_names ds items;
          counted = omega (
            arith,
            h.counted,
            length-append h.gone (full_names ds items),
            length-map (λ (i : Target). i.0) (map (full_name ds) items),
            length-map (full_name ds) items,
          );
          none_failed = h.none_failed;
          each_once =
              λ k. omega (arith, h.each_once k, occurs-append k h.gone (full_names ds items));
          all_went = λ k m. elim ((elem-append_iff k h.gone (full_names ds items)).0 m) [
            | inl a ↦ h.all_went k a
            | inr b ↦ full_names-Went ds items p.world t k b
          ];
        })
      ]

  recount : (f g : Text → ℕ) (p : Progress S) → ((k : Text) → f k ≡ g k) → Settled f p → Settled g p
  recount f g p e h = record {
    gone = h.gone;
    counted = h.counted;
    none_failed = h.none_failed;
    each_once = λ k. h.each_once k ∙ e k;
    all_went = h.all_went;
  }

  destroy_chunks-Settled :
      (ds : Text) (cs : List (List Target)) (f : Text → ℕ) (p : Progress S)
      → Settled f p
      → Settled (λ k. f k + in_chunks k ds cs) (destroy_chunks z ds cs p)
  unfolding destroy_chunks
  destroy_chunks-Settled ds [] f p h = recount f _ p (λ k. omega arith) h
  destroy_chunks-Settled ds (c ∷ cs) f p h =
      recount _ _ _ (λ k. omega arith)
        (destroy_chunks-Settled ds cs _ _ (destroy_chunk-Settled f ds c p h))

  destroy_groups-Settled :
      (groups : Dict (List Target)) (f : Text → ℕ) (p : Progress S)
      → Settled f p
      → Settled (λ k. f k + in_groups k groups) (destroy_groups z groups p)
  unfolding destroy_groups chunks
  destroy_groups-Settled [] f p h = recount f _ p (λ k. omega arith) h
  destroy_groups-Settled ((ds, items) ∷ groups) f p h =
      recount _ _ _
        (λ k. omega (arith, in_chunks-chunk_go k ds [] destroy_group items, in_items-nil k ds))
        (destroy_groups-Settled groups _ _ (destroy_chunks-Settled ds (chunks items) f p h))

  -- the second loop, behind the names `done`
  abbrev Account : (Text → ℕ) → Progress S → Type 0
  Account f p =
      (gone : List Text) × (p.count ≡ length gone)
      × ((k : Text) → occurs k gone + occurs k p.failed ≡ f k)
      × ((k : Text) → Elem k gone → Went z k)
      × ((k : Text) → Elem k p.failed → Refused z k)

  destroy_one-Account :
      (f : Text → ℕ) (t : Target) (p : Progress S)
      → Account f p
      → Account (λ k. f k + occurs k (t.0 ∷ [])) (destroy_one z t p)
  unfolding destroy_one
  destroy_one-Account f t p (gone, n, each, went, refused) =
      elim (Bool-cases (z.destroy t.0 p.world).0) [
        | inl e ↦
            rw (destroy_one, e)
              ((
                gone ++ t.0 ∷ [],
                omega (arith, n, length-append gone (t.0 ∷ [])),
                λ k. omega (arith, each k, occurs-append k gone (t.0 ∷ [])),
                λ k m. elim ((elem-append_iff k gone (t.0 ∷ [])).0 m) [
                  | inl a ↦ went k a
                  | inr b ↦ elim b [
                    | inl same ↦ subst (Went z) same (Went.alone t.0 p.world e)
                    | inr q ↦ elim q [ ]
                  ]
                ],
                refused,
              ))
        | inr e ↦
            rw (destroy_one, e)
              ((
                gone,
                n,
                λ k. omega (arith, each k, occurs-append k p.failed (t.0 ∷ [])),
                went,
                λ k m. elim ((elem-append_iff k p.failed (t.0 ∷ [])).0 m) [
                  | inl a ↦ refused k a
                  | inr b ↦ elim b [
                    | inl same ↦ subst (Refused z) same ((p.world, e))
                    | inr q ↦ elim q [ ]
                  ]
                ],
              ))
      ]

  destroy_singles-Account :
      (ts : List Target) (f : Text → ℕ) (p : Progress S)
      → Account f p
      → Account (λ k. f k + occurs k (names_in ts)) (destroy_singles z ts p)
  unfolding destroy_singles occurs
  destroy_singles-Account [] f p (gone, n, each, went, refused) =
      (gone, n, λ k. omega (arith, each k), went, refused)
  destroy_singles-Account (t ∷ ts) f p h =
      let (gone, n, each, went, refused) =
        destroy_singles-Account ts _ _ (destroy_one-Account f t p h) in
      (gone, n, λ k. omega (arith, each k, occurs-append k (t.0 ∷ []) (names_in ts)), went, refused)

-- Whatever the commands answer, every target is either counted as gone or named as failed, as often as
-- it is a target and no more: `zfs destroy` of its name, or of a group of snapshots which holds it,
-- succeeded where it is counted, and `zfs destroy` of its name failed where it is named.
pub destroy_snapshots-accounts :
    {S : Type 0} (z : Zfs S) (targets : List Target) (w : S)
    → Accounted
        (Went z)
        (Refused z)
        (map (λ t. t.0) targets)
        (destroy_snapshots z targets w).failed
        (destroy_snapshots z targets w).count
unfolding destroy_snapshots occurs
destroy_snapshots-accounts {S = S} z targets w =
    let start : Progress S = record {
      count = 0;
      singles = singles_of targets;
      failed = [];
      world = w;
    } in
    let first : Settled z (λ k. occurs k (names_in (singles_of targets))) start = record {
      gone = [];
      counted = refl;
      none_failed = refl;
      each_once = λ k. omega arith;
      all_went = λ k m. elim m [ ];
    } in
    let grouped = destroy_groups z (groups_of targets []) start in
    let g = destroy_groups-Settled z (groups_of targets []) _ start first in
    let before_second : Account z (λ k. occurs k g.gone) grouped = (
      g.gone,
      g.counted,
      λ k. ap (λ xs. occurs k g.gone + occurs k xs) g.none_failed ∙ omega arith,
      g.all_went,
      λ k m. let none_of : Elem k [] = subst (Elem k) g.none_failed m in elim none_of [ ],
    ) in
    let (gone, n, each, went, refused) =
      destroy_singles-Account z grouped.singles _ grouped before_second in
    record {
      went = gone;
      counted = n;
      each_once = λ k. omega (arith, each k, g.each_once k, in_groups-groups_of k targets []);
      all_went = went;
      all_failed = refused;
    }
