-- ===== src/Rpc/Probe.antt =====
-- src/services/rpc_identity.py: which chains a pass over the endpoints admits.
use privana.Prelude.{
  ℕ, ◌≡◌, refl, sym, ap, ◌∙◌, ◌⊎◌, inl, inr, Bool, true, false, Option, none, some, List, [], ◌∷◌,
  arith, ◌==◌, ==_iff, Bool-cases, if◌then◌else◌,
}
use privana.Text.{Text}
use privana.Table.{Table, find, keys, in_order, has, has-in_order, find-put, find-absent}
use privana.Effect.{Exn, Outcome, ok, raise, is_exception, Outcome-cases, ok-injective, ok-ne-raise}
use privana.Rpc.{Probes, admit, asked, collect, verify_chain_rpc_urls}

abbrev pub reports : Outcome ℕ → ℕ → Bool
reports (ok n) k = n == k
reports (raise e) k = false

module _ (probes : Probes) (urls : Table Text) where
  -- The endpoint of a chain, if it answers with the chain's id.
  abbrev pub proved : ℕ → Option Text → Option Text
  proved k none = none
  proved k (some url) = if reports (probes k url) k then some url else none

  abbrev or_else : Option Text → Option Text → Option Text
  or_else none y = y
  or_else (some x) y = some x

  -- What one chain of the loop adds.
  admitted :
      (k c reported : ℕ) (o : Option Text) (v : Table Text)
      → asked probes urls c o ≡ ok reported
      → find k (if reported == c then admit c o v else v)
        ≡ or_else (if c == k then proved c o else none) (find k v)
  unfolding admit
  admitted k c reported none v h = cc
  admitted k c reported (some url) v h = ground (arith, find-put c k url v)

  skipped :
      (k c : ℕ) (o : Option Text) (e : Exn) (y : Option Text)
      → asked probes urls c o ≡ raise e
      → y ≡ or_else (if c == k then proved c o else none) y
  skipped k c none e y h = ground arith
  skipped k c (some url) e y h = ground arith

  or_else-none : (o : Option Text) → or_else o none ≡ o
  or_else-none none = refl
  or_else-none (some x) = refl

  expected : List ℕ → ℕ → Table Text → Option Text
  expected chains k v = or_else (if has k chains then proved k (find k urls) else none) (find k v)

  join :
      (b : Bool) (p y z : Option Text)
      → z ≡ or_else p y
      → or_else (if b then p else none) z ≡ or_else p y
  join true none y z h = h
  join false none y z h = h
  join true (some x) y z h = refl
  join false (some x) y z h = h

  expected-cons :
      (c k : ℕ) (chains : List ℕ) (v w : Table Text)
      → find k w ≡ or_else (if c == k then proved c (find c urls) else none) (find k v)
      → expected chains k w ≡ expected (c ∷ chains) k v
  unfolding expected has
  expected-cons c k chains v w h = elim (Bool-cases (c == k)) [
    | inl e ↦ rw e (
        join (has k chains) (proved k (find k urls)) (find k v) (find k w)
          (rw (e, (==_iff c k).0 e) at h))
    | inr e ↦ rw (e, (rw e at h)) refl
  ]

  collect-find :
      (chains : List ℕ) (v w : Table Text) (k : ℕ)
      → collect probes urls chains v ≡ ok w
      → find k w ≡ expected chains k v
  unfolding collect expected has
  collect-find [] v w k h = ap (find k) (ok-injective w v (sym h))
  collect-find (c ∷ chains) v w k h = elim (Outcome-cases (asked probes urls c (find c urls))) [
    | inl (reported, e) ↦
        let v' = if reported == c then admit c (find c urls) v else v in
        collect-find chains v' w k (rw (collect, e) at h)
        ∙ expected-cons c k chains v v' (admitted k c reported (find c urls) v e)
    | inr (x, failed) ↦ elim (Bool-cases (is_exception x)) [
      | inl passed ↦
          collect-find chains v w k (rw (collect, failed, passed) at h)
          ∙ expected-cons c k chains v v (skipped k c (find c urls) x (find k v) failed)
      | inr ended ↦ absurd (ok-ne-raise w x (sym (rw (collect, failed, ended) at h)))
    ]
  ]

  -- A pass that ends normally admits exactly the chains whose endpoint answered with the chain's id,
  -- each with this endpoint, whatever the other endpoints answered.
  pub verify-find :
      (w : Table Text) (k : ℕ)
      → verify_chain_rpc_urls probes urls ≡ ok w
      → find k w ≡ proved k (find k urls)
  unfolding verify_chain_rpc_urls expected find
  verify-find w k h =
      collect-find (in_order (keys urls)) [] w k h
      ∙ rw (has-in_order k (keys urls)) (known (Bool-cases (has k (keys urls))))
    where
      known :
          (has k (keys urls) ≡ true) ⊎ (has k (keys urls) ≡ false)
          → or_else (if has k (keys urls) then proved k (find k urls) else none) none
            ≡ proved k (find k urls)
      known (inl e) = rw e (or_else-none (proved k (find k urls)))
      known (inr e) = rw (e, find-absent k urls e) refl
