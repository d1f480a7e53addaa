-- ===== src/Deposit/Discovery/Order.antt =====
-- src/services/deposit_discovery.py: the order in which a chunk's logs are examined.
use privana.Prelude.{◌≤◌, ◌≡◌, ◌⊎◌, inl, inr, List, [], ◌∷◌, arith, Bool-cases, Has}
use privana.Deposit.Discovery.{Entry, block_of, is_older, place_newest, newest_first}

-- From the newest block down.
abbrev pub IsNewestFirst : List Entry → Type 0
IsNewestFirst [] = Unit {0}
IsNewestFirst (e ∷ es) = ((d : Entry) → Has d es → block_of d ≤ block_of e) × IsNewestFirst es

pub Has-place_newest :
    (d e : Entry) (es : List Entry) → Has d (place_newest e es) → (e ≡ d) ⊎ Has d es
unfolding place_newest
Has-place_newest d e [] (inl h) = inl h
Has-place_newest d e [] (inr h) = elim h [ ]
Has-place_newest d e (x ∷ xs) h = elim (Bool-cases (is_older x e)) [
  | inl o ↦
      let h' : Has d (e ∷ x ∷ xs) = rw (place_newest, o) at h in
      elim h' [ inl g ↦ inl g | inr g ↦ inr g ]
  | inr o ↦
      let h' : Has d (x ∷ place_newest e xs) = rw (place_newest, o) at h in
      elim h' [
        | inl g ↦ inr (inl g)
        | inr g ↦ elim (Has-place_newest d e xs g) [ inl k ↦ inl k | inr k ↦ inr (inr k) ]
      ]
]

place_newest-Has : (d e : Entry) (es : List Entry) → (e ≡ d) ⊎ Has d es → Has d (place_newest e es)
unfolding place_newest
place_newest-Has d e [] (inl h) = inl h
place_newest-Has d e [] (inr h) = elim h [ ]
place_newest-Has d e (x ∷ xs) h = elim (Bool-cases (is_older x e)) [
  | inl o ↦ rw (place_newest, o) h
  | inr o ↦
      rw (place_newest, o)
        (elim h [
          | inl g ↦ inr (place_newest-Has d e xs (inl g))
          | inr g ↦ elim g [ inl k ↦ inl k | inr k ↦ inr (place_newest-Has d e xs (inr k)) ]
        ])
]

pub newest_first-Has : (d : Entry) (es : List Entry) → Has d es → Has d (newest_first es)
unfolding newest_first
newest_first-Has d [] h = elim h [ ]
newest_first-Has d (e ∷ es) (inl h) = place_newest-Has d e (newest_first es) (inl h)
newest_first-Has d (e ∷ es) (inr h) =
    place_newest-Has d e (newest_first es) (inr (newest_first-Has d es h))

pub Has-newest_first : (d : Entry) (es : List Entry) → Has d (newest_first es) → Has d es
unfolding newest_first
Has-newest_first d [] h = elim h [ ]
Has-newest_first d (e ∷ es) h = elim (Has-place_newest d e (newest_first es) h) [
  | inl g ↦ inl g
  | inr g ↦ inr (Has-newest_first d es g)
]

place_newest-IsNewestFirst :
    (e : Entry) (es : List Entry) → IsNewestFirst es → IsNewestFirst (place_newest e es)
unfolding place_newest
place_newest-IsNewestFirst e [] v = (λ d h. elim h [ ], tt)
place_newest-IsNewestFirst e (x ∷ xs) v = elim (Bool-cases (is_older x e)) [
  | inl o ↦
      rw (place_newest, o)
        (
          λ d h. elim h [
            | inl g ↦ unfold is_older in rw (← g) (ground arith)
            | inr g ↦ unfold is_older in ground (arith, v.0 d g)
          ],
          v,
        )
  | inr o ↦
      rw (place_newest, o)
        (
          λ d h. elim (Has-place_newest d e xs h) [
            | inl g ↦ unfold is_older in rw (← g) (ground arith)
            | inr g ↦ v.0 d g
          ],
          place_newest-IsNewestFirst e xs v.1,
        )
]

pub newest_first-IsNewestFirst : (es : List Entry) → IsNewestFirst (newest_first es)
unfolding newest_first
newest_first-IsNewestFirst [] = tt
newest_first-IsNewestFirst (e ∷ es) =
    place_newest-IsNewestFirst e (newest_first es) (newest_first-IsNewestFirst es)
