-- ===== src/Withdrawal/Pending.antt =====
-- src/services/withdrawal_processor.py: which withdrawals a poll takes up for a chain, and in which order.
use privana.Prelude.{
  ℕ, suc, ◌-◌, ◌≤◌, ◌≡◌, ◌≢◌, refl, sym, ap, ◌∙◌, ◌⊎◌, inl, inr, Bool, true, false, ◌&&◌, Option,
  List, [], ◌∷◌, ◌++◌, arith, ltb, leb, ◌==◌, ==_iff, Has, Bool-cases, if◌then◌else◌,
}
use mathlib.Core.List.{append_assoc, append-nil}
use privana.Table.{Table, find, put, find-put, in_order, place_in_order}
use privana.Effect.{ok, ◌>>=◌, try_except}
use privana.Withdrawal.{Processor, Chains, ask, attempts}
use privana.Withdrawal.Gate.{PendingEntry, Feeds}
use privana.Withdrawal.Poll.{is_above, is_eligible, held, group, sorted, get_pending_withdrawals}

-- The withdrawals of a chain that are due: asked for before the current block, and above the chain's mark.
pub due : Option ℕ → ℕ → ℕ → List PendingEntry → List ℕ
due mark current k [] = []
due mark current k (w ∷ ws) =
    let rest = due mark current k ws in
    if w.chain_id == k && ltb w.block_number current && is_above mark w.index
    then w.index ∷ rest
    else rest

abbrev pub IsAscending : List ℕ → Type 0
IsAscending [] = Unit {0}
IsAscending (x ∷ xs) = ((y : ℕ) → Has y xs → x ≤ y) × IsAscending xs

Has-place_in_order : (k y : ℕ) (xs : List ℕ) → Has y (place_in_order k xs) → (k ≡ y) ⊎ Has y xs
unfolding place_in_order
Has-place_in_order k y [] (inl e) = inl e
Has-place_in_order k y [] (inr h) = elim h [ ]
Has-place_in_order k y (x ∷ xs) h = elim (Bool-cases (leb k x)) [
  | inl e ↦
      let h' : Has y (k ∷ x ∷ xs) = rw (place_in_order, e) at h in
      elim h' [ inl g ↦ inl g | inr g ↦ inr g ]
  | inr e ↦
      let h' : Has y (x ∷ place_in_order k xs) = rw (place_in_order, e) at h in
      elim h' [
        | inl g ↦ inr (inl g)
        | inr g ↦ elim (Has-place_in_order k y xs g) [ inl i ↦ inl i | inr i ↦ inr (inr i) ]
      ]
]

place_in_order-IsAscending :
    (k : ℕ) (xs : List ℕ) → IsAscending xs → IsAscending (place_in_order k xs)
unfolding place_in_order
place_in_order-IsAscending k [] v = (λ y h. elim h [ ], tt)
place_in_order-IsAscending k (x ∷ xs) v = elim (Bool-cases (leb k x)) [
  | inl e ↦
      rw (place_in_order, e)
        (λ y h. elim h [ inl g ↦ rw (← g) (ground arith) | inr g ↦ ground (arith, v.0 y g) ], v)
  | inr e ↦
      rw (place_in_order, e)
        (
          λ y h. elim (Has-place_in_order k y xs h) [
            | inl g ↦ rw (← g) (ground arith)
            | inr g ↦ v.0 y g
          ],
          place_in_order-IsAscending k xs v.1,
        )
]

in_order-IsAscending : (xs : List ℕ) → IsAscending (in_order xs)
unfolding in_order
in_order-IsAscending [] = tt
in_order-IsAscending (x ∷ xs) = place_in_order-IsAscending x (in_order xs) (in_order-IsAscending xs)

find-sorted : (k : ℕ) (d : Table (List ℕ)) → held (find k (sorted d)) ≡ in_order (held (find k d))
unfolding find in_order
find-sorted k [] = refl
find-sorted k ((j, is) ∷ d) = elim (Bool-cases (j == k)) [
  | inl e ↦ rw (find, e) refl
  | inr e ↦ rw (find, e) (find-sorted k d)
]

module _ (s : Processor) (current k : ℕ) (known : k ≢ 0) where
  is_due : PendingEntry → Bool
  is_due w = ltb w.block_number current && is_above (s.chain_high_water_mark k) w.index

  eligible-own : (w : PendingEntry) → w.chain_id ≡ k → is_eligible s current w ≡ is_due w
  unfolding is_eligible is_due
  eligible-own w own =
      let named : (w.chain_id == 0) ≡ false = elim (Bool-cases (w.chain_id == 0)) [
        | inl e ↦ absurd (known (sym own ∙ (==_iff w.chain_id 0).0 e))
        | inr e ↦ e
      ] in
      let asked : leb 1 (current - w.block_number) ≡ ltb w.block_number current = ground arith in
      rw (named, asked, own)
        (and-true (ltb w.block_number current) (is_above (s.chain_high_water_mark k) w.index))
    where
      and-true : (a b : Bool) → a && b && true ≡ a && b
      and-true true true = refl
      and-true true false = refl
      and-true false b = refl

  group-due :
      (ws : List PendingEntry) (d : Table (List ℕ))
      → held (find k (group s current ws d))
        ≡ held (find k d) ++ due (s.chain_high_water_mark k) current k ws
  unfolding group due is_due
  group-due [] d = sym (append-nil (held (find k d)))
  group-due (w ∷ ws) d = elim (Bool-cases (w.chain_id == k)) [
    | inl e ↦
        let own : w.chain_id ≡ k = (==_iff w.chain_id k).0 e in
        elim (Bool-cases (is_due w)) [
          | inl taken ↦
              let test : is_eligible s current w ≡ true = eligible-own w own ∙ taken in
              rw (group, test, due, e, taken)
                (group-due ws (put w.chain_id (held (find w.chain_id d) ++ w.index ∷ []) d)
                  ∙ rw (find-put w.chain_id k (held (find w.chain_id d) ++ w.index ∷ []) d, e, own)
                      (append_assoc (held (find k d)) (w.index ∷ [])
                        (due (s.chain_high_water_mark k) current k ws)))
          | inr left ↦
              let test : is_eligible s current w ≡ false = eligible-own w own ∙ left in
              rw (group, test, due, e, left) (group-due ws d)
        ]
    | inr e ↦ elim (Bool-cases (is_eligible s current w)) [
      | inl test ↦
          rw (group, test, due, e)
            (group-due ws (put w.chain_id (held (find w.chain_id d) ++ w.index ∷ []) d)
              ∙ rw (find-put w.chain_id k (held (find w.chain_id d) ++ w.index ∷ []) d, e) refl)
      | inr test ↦ rw (group, test, due, e) (group-due ws d)
    ]
  ]

module _ (env : Chains) (feeds : Feeds) (s : Processor) (entries : List PendingEntry)
    (current k : ℕ) where
  -- If the first call for the pending withdrawals is answered, then for every chain with an id the poll
  -- takes up exactly the withdrawals of this chain that were asked for before the current block and lie
  -- above the chain's mark, in ascending order of their indices.
  pub get_pending_withdrawals-due :
      k ≢ 0
      → feeds.pending_withdrawals s.tick ≡ ok (entries, current)
      → (d : Table (List ℕ)) × ((get_pending_withdrawals env feeds s).0 ≡ ok d)
        × (held (find k d) ≡ in_order (due (s.chain_high_water_mark k) current k entries))
        × IsAscending (held (find k d))
  unfolding get_pending_withdrawals attempts ask ◌>>=◌ try_except
  get_pending_withdrawals-due known answered =
      let after : Processor = record s { tick = suc s.tick } in
      let taken = group after current entries [] in
      let found : held (find k (sorted taken))
          ≡ in_order (due (s.chain_high_water_mark k) current k entries) =
        find-sorted k taken ∙ ap in_order (group-due after current k known entries []) in
      (
        sorted taken,
        rw (get_pending_withdrawals, answered) refl,
        found,
        rw found (in_order-IsAscending (due (s.chain_high_water_mark k) current k entries)),
      )
