-- ===== src/Deposit/Discovery/Coverage.antt =====
-- src/services/deposit_discovery.py: what one pass over the logs of a chunk examines.
use privana.Prelude.{
  ℕ, ◌+◌, ◌≤◌, ◌<◌, ◌≡◌, refl, ap, ◌∙◌, ◌⊎◌, inl, inr, Bool, true, false, ◌||◌, Option, none, some,
  List, [], ◌∷◌, ◌++◌, arith, ltb, leb, length, length-append, Bool-cases, Has, Has-append,
  Has-append_left, Has-append-cases,
}
use privana.Effect.{Outcome, ok, ok-injective}
use privana.Deposit.Verifier.{then_with-ok}
use privana.Deposit.Discovery.{
  max_pending_candidates, DiscoveredDeposit, Entry, Candidate, block_of, decode_transfer_log,
}
use privana.Deposit.Discovery.Order.{IsNewestFirst}
use privana.Deposit.Discovery.Scan.{Progress, settle, weigh, visit, examine}

-- A candidate is in the block of its log.
decode-block :
    (e : Entry) (c : Candidate) → decode_transfer_log e ≡ ok (some c) → c.block_number ≡ block_of e
unfolding decode_transfer_log
decode-block e c h = ground arith

module _ (min_amount : ℕ) (verdict : ℕ → Candidate → Outcome (Option DiscoveredDeposit)) where
  -- The log was looked at: if it is a transfer of enough, it was classified, and is among the results
  -- where it was found to be claimable.
  abbrev pub Examined : Entry → List DiscoveredDeposit → Type 0
  Examined e found =
      (c : Candidate)
      → decode_transfer_log e ≡ ok (some c)
      → min_amount ≤ c.amount
      → (k : ℕ) × ((verdict k c ≡ ok none)
          ⊎ ((d : DiscoveredDeposit) × (verdict k c ≡ ok (some d)) × Has d found))

  -- The result comes from the log: a transfer of enough, which was classified so within the bound.
  abbrev pub Justified : Entry → DiscoveredDeposit → Type 0
  Justified e d =
      (c : Candidate) × (decode_transfer_log e ≡ ok (some c))
      × (min_amount ≤ c.amount)
      × ((k : ℕ) × (k < 60) × (verdict k c ≡ ok (some d)))

  abbrev pub is_over : Progress → Bool
  is_over s = leb max_pending_candidates (length s.pending) || s.bound_reached

  -- What one log does to the variables of the loop.
  record Facts (s : Progress) (e : Entry) (s' : Progress) (goes_on : Bool) : Type 0 where
    grows : (d : DiscoveredDeposit) → Has d s.pending → Has d s'.pending
    fresh : (d : DiscoveredDeposit) → Has d s'.pending → Has d s.pending ⊎ Justified e d
    bounded : length s.pending < 20 → length s'.pending ≤ 20
    on :
        goes_on ≡ true
        → Examined e s'.pending
          × (s'.scanned_from ≡ s.scanned_from)
          × (s'.bound_reached ≡ s.bound_reached)
          × (length s.pending < 20 → length s'.pending < 20)
    off : goes_on ≡ false → (s'.scanned_from ≡ block_of e + 1) × (is_over s' ≡ true)

  same_candidate :
      (e : Entry) (c b : Candidate)
      → decode_transfer_log e ≡ ok (some c)
      → decode_transfer_log e ≡ ok (some b)
      → c ≡ b
  same_candidate e c b p q = cc

  Examined-as :
      (e : Entry) (c : Candidate) (k : ℕ) (o : Option DiscoveredDeposit)
      (found : List DiscoveredDeposit)
      → decode_transfer_log e ≡ ok (some c)
      → verdict k c ≡ ok o
      → ((d : DiscoveredDeposit) → o ≡ some d → Has d found)
      → Examined e found
  Examined-as e c k none found decoded judged kept b also enough =
      (k, inl (rw (← same_candidate e c b decoded also) judged))
  Examined-as e c k (some d) found decoded judged kept b also enough =
      (k, inr (d, rw (← same_candidate e c b decoded also) judged, kept d refl))

  settled :
      (s : Progress) (e : Entry) (c : Candidate) (o : Option DiscoveredDeposit)
      → decode_transfer_log e ≡ ok (some c)
      → min_amount ≤ c.amount
      → s.classified < 60
      → verdict s.classified c ≡ ok o
      → Facts s e (settle min_amount verdict s c o).0 (settle min_amount verdict s c o).1
  settled s e c none decoded enough few judged = record {
    grows = λ d h. h;
    fresh = λ d h. inl h;
    bounded = λ h. omega arith;
    on = λ _. (
      Examined-as e c s.classified none s.pending decoded judged (λ d h. cc),
      refl,
      refl,
      λ h. h,
    );
    off = λ h. cc;
  }
  settled s e c (some d) decoded enough few judged =
      elim (Bool-cases (leb 20 (length (s.pending ++ d ∷ [])))) [
        | inl full ↦ rw full (record {
          grows = kept;
          fresh = new;
          bounded = size;
          on = λ h. cc;
          off = λ _. (ap (λ (b : ℕ). b + 1) (decode-block e c decoded), rw full refl);
        })
        | inr room ↦ rw room (record {
          grows = kept;
          fresh = new;
          bounded = size;
          on = λ _. (
            Examined-as e c s.classified (some d) (s.pending ++ d ∷ []) decoded judged
                (λ x h. Has-append x s.pending (d ∷ []) (inl (ground arith))),
            refl,
            refl,
            λ h. ground arith,
          );
          off = λ h. cc;
        })
      ]
    where
      kept : (x : DiscoveredDeposit) → Has x s.pending → Has x (s.pending ++ d ∷ [])
      kept x h = Has-append_left x s.pending (d ∷ []) h

      new : (x : DiscoveredDeposit) → Has x (s.pending ++ d ∷ []) → Has x s.pending ⊎ Justified e x
      new x h = elim (Has-append-cases x s.pending (d ∷ []) h) [
        | inl g ↦ inl g
        | inr g ↦ inr (
          c,
          decoded,
          enough,
          (
            s.classified,
            few,
            elim g [ inl same ↦ rw (← same) judged | inr none_left ↦ elim none_left [ ] ],
          ),
        )
      ]

      size : length s.pending < 20 → length (s.pending ++ d ∷ []) ≤ 20
      size h = omega (arith, length-append s.pending (d ∷ []))

  skipped :
      (s : Progress) (e : Entry)
      → ((c : Candidate) → decode_transfer_log e ≡ ok (some c) → min_amount ≤ c.amount → ⊥)
      → Facts s e s true
  skipped s e not_one = record {
    grows = λ d h. h;
    fresh = λ d h. inl h;
    bounded = λ h. omega arith;
    on = λ _. ((λ c decoded enough. absurd (not_one c decoded enough)), refl, refl, λ h. h);
    off = λ h. cc;
  }

  full :
      (s : Progress) (e : Entry) (c : Candidate)
      → decode_transfer_log e ≡ ok (some c)
      → Facts s e (record s { bound_reached = true; scanned_from = c.block_number + 1 }) false
  full s e c decoded = record {
    grows = λ d h. h;
    fresh = λ d h. inl h;
    bounded = λ h. omega arith;
    on = λ h. cc;
    off = λ _. (ap (λ (b : ℕ). b + 1) (decode-block e c decoded), ground arith);
  }

  weighed :
      (s : Progress) (e : Entry) (o : Option Candidate) (r : Progress × Bool)
      → decode_transfer_log e ≡ ok o
      → weigh min_amount verdict s o ≡ ok r
      → Facts s e r.0 r.1
  weighed s e none r decoded h = rw (← ok-injective _ _ h) (skipped s e (λ c also enough. cc))
  weighed s e (some c) r decoded h = elim (Bool-cases (ltb c.amount min_amount)) [
    | inl dust ↦ rw (← ok-injective _ _ (rw dust at h)) (
        skipped s e (λ b also enough.
          let same = same_candidate e c b decoded also in
          let less : ltb b.amount min_amount ≡ true = rw (← same) dust in absurd (ground arith)))
    | inr enough ↦ elim (Bool-cases (leb 60 s.classified)) [
      | inl many ↦ rw (← ok-injective _ _ (rw (enough, many) at h)) (full s e c decoded)
      | inr few ↦
          let (o, judged, settles) =
            then_with-ok (verdict s.classified c) _ r (rw (enough, few) at h) in
          rw (← ok-injective _ _ settles)
            (settled s e c o decoded (ground arith) (ground arith) judged)
    ]
  ]

  visit_lem :
      (s : Progress) (e : Entry) (r : Progress × Bool)
      → visit min_amount verdict s e ≡ ok r
      → Facts s e r.0 r.1
  unfolding visit
  visit_lem s e r h =
      let (o, decoded, weighs) = then_with-ok (decode_transfer_log e) _ r h in
      weighed s e o r decoded weighs

  pub Examined-grows :
      (e : Entry) (p q : List DiscoveredDeposit)
      → ((d : DiscoveredDeposit) → Has d p → Has d q)
      → Examined e p
      → Examined e q
  Examined-grows e p q more seen c decoded enough =
      let (k, verdict_of) = seen c decoded enough in
      elim verdict_of [
        | inl no_deposit ↦ (k, inl no_deposit)
        | inr (d, judged, had) ↦ (k, inr (d, judged, more d had))
      ]

  -- What the logs of a chunk do to the variables of the loop.
  pub record Pass (s : Progress) (es : List Entry) (s' : Progress) : Type 0 where
    pub grows : (d : DiscoveredDeposit) → Has d s.pending → Has d s'.pending
    pub fresh :
        (d : DiscoveredDeposit)
        → Has d s'.pending
        → Has d s.pending ⊎ ((e : Entry) × Has e es × Justified e d)
    pub bounded : length s'.pending ≤ 20
    pub seen : (e : Entry) → Has e es → s'.scanned_from ≤ block_of e → Examined e s'.pending
    pub down : s.scanned_from ≤ s'.scanned_from
    pub ends : (is_over s' ≡ true) ⊎ (s'.scanned_from ≡ s.scanned_from)

  Pass-on :
      (s s1 s' : Progress) (e : Entry) (es : List Entry)
      → Facts s e s1 true
      → Pass s1 es s'
      → Pass s (e ∷ es) s'
  Pass-on s s1 s' e es one rest =
      let (here, same_from, _, _) = one.on refl in
      record {
        grows = λ d h. rest.grows d (one.grows d h);
        fresh = λ d h. elim (rest.fresh d h) [
          | inr (x, in_rest, justified) ↦ inr (x, inr in_rest, justified)
          | inl before ↦ elim (one.fresh d before) [
            | inl held ↦ inl held
            | inr justified ↦ inr (e, inl refl, justified)
          ]
        ];
        bounded = rest.bounded;
        seen = λ x h le. elim h [
          | inl same ↦ rw (← same) (Examined-grows e s1.pending s'.pending rest.grows here)
          | inr later ↦ rest.seen x later le
        ];
        down = omega (arith, rest.down, same_from);
        ends = elim rest.ends [ inl over ↦ inl over | inr from_rest ↦ inr (from_rest ∙ same_from) ];
      }

  Pass-stop :
      (s s' : Progress) (e : Entry) (es : List Entry)
      → Facts s e s' false
      → length s.pending < 20
      → ((d : Entry) → Has d es → block_of d ≤ block_of e)
      → s.scanned_from ≤ block_of e
      → Pass s (e ∷ es) s'
  Pass-stop s s' e es one few older le =
      let (cut, over) = one.off refl in
      record {
        grows = one.grows;
        fresh = λ d h. elim (one.fresh d h) [
          | inl held ↦ inl held
          | inr justified ↦ inr (e, inl refl, justified)
        ];
        bounded = one.bounded few;
        seen = λ x h above. elim h [
          | inl same ↦
              let above' : s'.scanned_from ≤ block_of e = rw same above in
              absurd (omega (arith, cut, above'))
          | inr later ↦ absurd (omega (arith, cut, above, older x later))
        ];
        down = omega (arith, cut, le);
        ends = inl over;
      }

  pub examine_lem :
      (es : List Entry) (s s' : Progress)
      → examine min_amount verdict s es ≡ ok s'
      → IsNewestFirst es
      → length s.pending < 20
      → ((e : Entry) → Has e es → s.scanned_from ≤ block_of e)
      → Pass s es s'
  unfolding examine
  examine_lem [] s s' h sorted few inside = rw (← ok-injective _ _ h) (record {
    grows = λ d held. held;
    fresh = λ d held. inl held;
    bounded = omega arith;
    seen = λ e none_left. elim none_left [ ];
    down = omega arith;
    ends = inr refl;
  })
  examine_lem (e ∷ es) s s' h sorted few inside =
      let (r, visited, goes) = then_with-ok (visit min_amount verdict s e) _ s' h in
      let one = visit_lem s e r visited in
      elim (Bool-cases r.1) [
        | inl on ↦
            let one' : Facts s e r.0 true = rw on at one in
            let (_, same_from, _, few') = one'.on refl in
            Pass-on s r.0 s' e es one' (
              examine_lem es r.0 s' (rw on at goes) sorted.1 (few' few)
                (λ d later. omega (arith, same_from, inside d (inr later))))
        | inr off ↦
            let one' : Facts s e r.0 false = rw off at one in
            let last_one : r.0 ≡ s' = ok-injective _ _ (rw off at goes) in
            rw (← last_one) (Pass-stop s r.0 e es one' few sorted.0 (inside e (inl refl)))
      ]
