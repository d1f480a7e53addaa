-- ===== src/Table.antt =====
-- A Python `dict` keyed by integers, such as the chain ids. Entries keep the order of insertion.
use privana.Prelude.{
  ℕ, ◌≡◌, refl, Bool, true, false, Option, none, some, List, [], ◌∷◌, arith, ◌==◌, leb,
  if◌then◌else◌,
}

module _ {ℓ} where
  abbrev pub Table : Type ℓ → Type ℓ
  Table V = List (ℕ × V)

module _ {ℓ} {V : Type ℓ} where
  -- `d.get(k)`
  unfoldable pub find : ℕ → Table V → Option V
  find k [] = none
  find k ((j, v) ∷ d) = if j == k then some v else find k d

  -- `d[k] = v`
  unfoldable pub put : ℕ → V → Table V → Table V
  put k v [] = (k, v) ∷ []
  put k v ((j, w) ∷ d) = if j == k then (k, v) ∷ d else (j, w) ∷ put k v d

  -- `d.pop(k, None)`
  unfoldable pub take_out : ℕ → Table V → Table V
  take_out k [] = []
  take_out k ((j, w) ∷ d) = let rest = take_out k d in if j == k then rest else (j, w) ∷ rest

  abbrev pub keys : Table V → List ℕ
  keys [] = []
  keys ((k, v) ∷ d) = k ∷ keys d

  pub find-put :
      (k j : ℕ) (v : V) (d : Table V) → find j (put k v d) ≡ (if k == j then some v else find j d)
  unfolding find put
  find-put k j v [] = refl
  find-put k j v ((i, w) ∷ d) = ground (arith, find-put k j v d)

  pub find-take_out :
      (k j : ℕ) (d : Table V) → find j (take_out k d) ≡ (if k == j then none else find j d)
  unfolding find take_out
  find-take_out k j [] = ground arith
  find-take_out k j ((i, w) ∷ d) = ground (arith, find-take_out k j d)

-- `k in l`
unfoldable pub has : ℕ → List ℕ → Bool
has k [] = false
has k (x ∷ xs) = let rest = has k xs in if x == k then true else rest

module _ {ℓ} {V : Type ℓ} where
  pub find-absent : (k : ℕ) (d : Table V) → has k (keys d) ≡ false → find k d ≡ none
  unfolding has find
  find-absent k [] h = refl
  find-absent k ((j, v) ∷ d) h = ground (arith, find-absent k d)

-- `sorted(l)` on integers
unfoldable pub place_in_order : ℕ → List ℕ → List ℕ
place_in_order k [] = k ∷ []
place_in_order k (x ∷ xs) = if leb k x then k ∷ x ∷ xs else x ∷ place_in_order k xs

unfoldable pub in_order : List ℕ → List ℕ
in_order [] = []
in_order (x ∷ xs) = place_in_order x (in_order xs)

has-place_in_order :
    (k j : ℕ) (xs : List ℕ) → has j (place_in_order k xs) ≡ (if k == j then true else has j xs)
unfolding has place_in_order
has-place_in_order k j [] = ground arith
has-place_in_order k j (x ∷ xs) = ground (arith, has-place_in_order k j xs)

pub has-in_order : (k : ℕ) (xs : List ℕ) → has k (in_order xs) ≡ has k xs
unfolding has in_order
has-in_order k [] = refl
has-in_order k (x ∷ xs) = ground (arith, has-place_in_order x k (in_order xs), has-in_order k xs)
