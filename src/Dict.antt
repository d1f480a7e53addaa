-- ===== src/Dict.antt =====
-- A Python `dict`, a directory of files or a disk cache, keyed by text. Entries keep the order of
-- insertion.
use privana.Prelude.{◌≡◌, refl, ◌⊎◌, Option, none, some, List, [], ◌∷◌, arith, if◌then◌else◌}
use privana.Text.{Text, text_eq, text_eq_iff}

module _ {ℓ} where
  abbrev pub Dict : Type ℓ → Type ℓ
  Dict V = List (Text × V)

module _ {ℓ} {V : Type ℓ} where
  -- `d.get(k)`
  unfoldable pub lookup : Text → Dict V → Option V
  lookup k [] = none
  lookup k ((j, v) ∷ d) = if text_eq j k then some v else lookup k d

  -- `d[k] = v`
  unfoldable pub insert : Text → V → Dict V → Dict V
  insert k v [] = (k, v) ∷ []
  insert k v ((j, w) ∷ d) = if text_eq j k then (k, v) ∷ d else (j, w) ∷ insert k v d

  -- `d.pop(k, None)`
  unfoldable pub remove : Text → Dict V → Dict V
  remove k [] = []
  remove k ((j, w) ∷ d) = let rest = remove k d in if text_eq j k then rest else (j, w) ∷ rest

  pub lookup-insert :
      (k j : Text) (v : V) (d : Dict V)
      → lookup j (insert k v d) ≡ (if text_eq k j then some v else lookup j d)
  unfolding lookup insert
  lookup-insert k j v [] = refl
  lookup-insert k j v ((i, w) ∷ d) =
      ground (arith, text_eq_iff k j, text_eq_iff i k, text_eq_iff i j, lookup-insert k j v d)

  pub lookup-remove :
      (k j : Text) (d : Dict V) → lookup j (remove k d) ≡ (if text_eq k j then none else lookup j d)
  unfolding lookup remove
  lookup-remove k j [] = ground arith
  lookup-remove k j ((i, w) ∷ d) =
      ground (arith, text_eq_iff k j, text_eq_iff i k, text_eq_iff i j, lookup-remove k j d)

  -- A value that is found after a write is the one written, or was there before.
  pub lookup-insert-some :
      (k j : Text) (v w : V) (d : Dict V)
      → lookup j (insert k v d) ≡ some w
      → (v ≡ w) ⊎ (lookup j d ≡ some w)
  lookup-insert-some k j v w d h = ground (arith, lookup-insert k j v d)

  pub lookup-remove-some :
      (k j : Text) (w : V) (d : Dict V) → lookup j (remove k d) ≡ some w → lookup j d ≡ some w
  lookup-remove-some k j w d h = ground (arith, lookup-remove k j d)
