-- ===== src/Base/Dicts.antt =====
-- A Python `dict` with text keys: an association list in insertion order.
use zark.Base.Core.{Bool, Option, none, some, List, [], ◌∷◌, ◌++◌, if◌then◌else◌, is_some}
use zark.Base.Strings.{Text, text_eq}

abbrev pub Dict {ℓ} : Type ℓ → Type ℓ
Dict V = List (Text × V)

module _ {ℓ} {V : Type ℓ} where
  -- `d.get(k)`
  unfoldable pub get : Text → Dict V → Option V
  get k [] = none
  get k ((j, v) ∷ d) = let rest = get k d in if text_eq k j then some v else rest

  -- `d.get(k, default)`
  unfoldable pub get_or : V → Text → Dict V → V
  get_or v k d = elim (get k d) [ none ↦ v | some w ↦ w ]

  -- `k in d`
  unfoldable pub has_key : Text → Dict V → Bool
  has_key k d = is_some (get k d)

  -- `d[k] = v`: in its place, or at the end
  unfoldable pub put : Text → V → Dict V → Dict V
  put k v [] = (k, v) ∷ []
  put k v ((j, w) ∷ d) = let rest = put k v d in if text_eq k j then (j, v) ∷ d else (j, w) ∷ rest

  unfoldable pub keys : Dict V → List Text
  keys [] = []
  keys ((k, v) ∷ d) = k ∷ keys d

  unfoldable pub values : Dict V → List V
  values [] = []
  values ((k, v) ∷ d) = v ∷ values d

  -- `d[k] = d.get(k, default)` changed by `f`
  unfoldable pub update : (V → V) → V → Text → Dict V → Dict V
  update f v k d = put k (f (get_or v k d)) d

-- `d.setdefault(k, []).append(a)`
unfoldable pub append_at {ℓ} : {A : Type ℓ} → Text → A → Dict (List A) → Dict (List A)
append_at k a d = update (λ l. l ++ a ∷ []) [] k d
