-- ===== src/Rpc/Serving.antt =====
-- src/services/rpc_identity.py: the endpoint that a caller is handed in a run of passes and requests.
use privana.Prelude.{
  ℕ, ◌≡◌, ◌≢◌, refl, sym, ap, ◌∙◌, ◌⊎◌, inl, inr, true, false, Option, none, some, List, [], ◌∷◌,
  arith, ==_iff, Bool-cases, Option-cases, if◌then◌else◌,
}
use privana.Text.{Text, is_nonempty}
use privana.Table.{Table, find, take_out, in_order, find-put, find-take_out}
use privana.Effect.{Outcome, ok, raise, ok-injective, ok-ne-raise}
use privana.Rpc.{
  Probes, Gate, Sapphire, is_empty, verify_chain_rpc_urls, commit_verified, commit_checked,
  commit_reverified, to_probe, initialize_verified_chain_rpc_urls, reverify_chain_rpc_urls,
  nonempty_url, verified_web3, set_default, require_verified_web3,
}
use privana.Rpc.Probe.{reports, proved, verify-find}

-- The gate, one caller's cache of clients, and what the last pass that ended normally was answered.
pub record Session : Type 0 where
  pub gate : Gate
  pub cache : Table Text
  pub probes : Probes

pub data Step : Type 0 where
  start : Sapphire → Probes → Step
  recheck : Probes → Step
  -- a chain, with the caller's own mapping
  request : ℕ → Table Text → Step

abbrev pub answered : Outcome (Table Text) → Probes → Probes → Probes
answered (ok verified) new old = new
answered (raise e) new old = old

unfoldable pub perform : Step → Session → Session
perform (start sapphire probes) s = record s {
  gate = (initialize_verified_chain_rpc_urls sapphire probes s.gate).1;
  probes = answered (verify_chain_rpc_urls probes s.gate.chain_rpc_urls) probes s.probes;
}
perform (recheck probes) s = record s {
  gate = (reverify_chain_rpc_urls probes s.gate).1;
  probes =
      if is_empty (to_probe s.gate)
      then s.probes
      else answered (verify_chain_rpc_urls probes (to_probe s.gate)) probes s.probes;
}
perform (request chain urls) s = record s {
  cache = (require_verified_web3 s.gate chain urls s.cache).1;
}

unfoldable pub run : List Step → Session → Session
unfolding perform
run [] s = s
run (o ∷ os) s = run os (perform o s)

-- The process as it starts, with the configured endpoints.
abbrev pub started : Table Text → Probes → Session
started urls probes = record {
  gate = record {
    verified_urls = [];
    allow_unverified = false;
    configured_urls = [];
    chain_rpc_urls = urls;
  };
  cache = [];
  probes = probes;
}

module _ (urls : Table Text) where
  -- Every entry is one of the configured endpoints.
  abbrev IsWithin : Table Text → Type 0
  IsWithin d = (k : ℕ) (url : Text) → find k d ≡ some url → find k urls ≡ some url

  -- No opt-out, and the verified endpoints are configured and have answered with their chain's id.
  record IsArmed (g : Gate) (probes : Probes) : Type 0 where
    opted : g.allow_unverified ≡ false
    proven : (k : ℕ) (url : Text) → find k g.verified_urls ≡ some url → probes k url ≡ ok k
    verified_within : IsWithin g.verified_urls
    configured_within : IsWithin g.configured_urls
    settings_within : IsWithin g.chain_rpc_urls

  some-injective : (x y : Text) → some x ≡ some y → x ≡ y
  some-injective x y h = cc

  none-ne-some : (x : Text) → none ≢ some x
  none-ne-some x h = cc

  reports-ok : (r : Outcome ℕ) (k : ℕ) → reports r k ≡ true → r ≡ ok k
  reports-ok (ok n) k h = ap ok ((==_iff n k).0 h)
  reports-ok (raise e) k h = cc

  proved-some :
      (probes : Probes) (d : Table Text) (k : ℕ) (o : Option Text) (url : Text)
      → proved probes d k o ≡ some url
      → (o ≡ some url) × (probes k url ≡ ok k)
  proved-some probes d k none url h = cc
  proved-some probes d k (some x) url h = elim (Bool-cases (reports (probes k x) k)) [
    | inl e ↦
        let same : some x ≡ some url = rw e at h in
        (same, rw (some-injective x url same) at (reports-ok (probes k x) k e))
    | inr e ↦ absurd (none-ne-some url (rw e at h))
  ]

  empty_is : (d : Table Text) → is_empty d ≡ true → d ≡ []
  empty_is [] h = refl
  empty_is (x ∷ d) h = cc

  found_in_pass :
      (probes : Probes) (d v : Table Text) (k : ℕ) (url : Text)
      → verify_chain_rpc_urls probes d ≡ ok v
      → find k v ≡ some url
      → (find k d ≡ some url) × (probes k url ≡ ok k)
  found_in_pass probes d v k url e f =
      proved-some probes d k (find k d) url (sym (verify-find probes d v k e) ∙ f)

  commit-IsArmed :
      (probes : Probes) (d v : Table Text) (g : Gate)
      → verify_chain_rpc_urls probes d ≡ ok v
      → IsWithin d
      → IsWithin g.configured_urls
      → IsArmed (commit_verified v g) probes
  unfolding commit_verified
  commit-IsArmed probes d v g e within configured = record {
    opted = refl;
    proven = λ k url f. (found_in_pass probes d v k url e f).1;
    verified_within = λ k url f. within k url (found_in_pass probes d v k url e f).0;
    configured_within = configured;
    settings_within = λ k url f. within k url (found_in_pass probes d v k url e f).0;
  }

  verify_empty : (probes : Probes) → verify_chain_rpc_urls probes [] ≡ ok []
  unfolding verify_chain_rpc_urls in_order
  verify_empty probes = refl

  verify_none :
      (probes : Probes) (d : Table Text)
      → is_empty d ≡ true
      → verify_chain_rpc_urls probes d ≡ ok []
  verify_none probes d e = rw (empty_is d e) (verify_empty probes)

  IsWithin-none : IsWithin []
  unfolding find
  IsWithin-none k url h = cc

  commit_checked-IsArmed :
      (sapphire : Sapphire) (probes old : Probes) (d : Table Text) (g : Gate)
      (r : Outcome (Table Text))
      → verify_chain_rpc_urls probes d ≡ r
      → IsWithin d
      → IsArmed g old
      → IsArmed (commit_checked sapphire r g).1 (answered r probes old)
  commit_checked-IsArmed sapphire probes old d g (ok v) e within h =
      commit-IsArmed probes d v g e within h.configured_within
  commit_checked-IsArmed sapphire probes old d g (raise x) e within h = h

  commit_reverified-IsArmed :
      (probes old : Probes) (d : Table Text) (g : Gate) (r : Outcome (Table Text))
      → verify_chain_rpc_urls probes d ≡ r
      → IsWithin d
      → IsArmed g old
      → IsArmed (commit_reverified r g).1 (answered r probes old)
  commit_reverified-IsArmed probes old d g (ok v) e within h =
      commit-IsArmed probes d v g e within h.configured_within
  commit_reverified-IsArmed probes old d g (raise x) e within h = h

  initialize-IsArmed :
      (sapphire : Sapphire) (probes old : Probes) (g : Gate)
      → IsArmed g old
      → IsArmed
          (initialize_verified_chain_rpc_urls sapphire probes g).1
          (answered (verify_chain_rpc_urls probes g.chain_rpc_urls) probes old)
  unfolding initialize_verified_chain_rpc_urls
  initialize-IsArmed sapphire probes old g h =
      let remembered = record g { configured_urls = g.chain_rpc_urls } in
      let kept : IsArmed remembered old = record {
        opted = h.opted;
        proven = h.proven;
        verified_within = h.verified_within;
        configured_within = h.settings_within;
        settings_within = h.settings_within;
      } in
      elim (Bool-cases (is_empty g.chain_rpc_urls)) [
        | inl e ↦
            rw (e, verify_none probes g.chain_rpc_urls e)
              (commit-IsArmed probes [] [] remembered (verify_empty probes) IsWithin-none
                h.settings_within)
        | inr e ↦ rw e (
            commit_checked-IsArmed sapphire probes old g.chain_rpc_urls remembered _ refl
              h.settings_within kept)
      ]

  probed-IsWithin : {old : Probes} (g : Gate) → IsArmed g old → IsWithin (to_probe g)
  probed-IsWithin g h = elim (Bool-cases (is_empty g.configured_urls)) [
    | inl e ↦ rw e h.settings_within
    | inr e ↦ rw e h.configured_within
  ]

  reverify-IsArmed :
      (probes old : Probes) (g : Gate)
      → IsArmed g old
      → IsArmed (reverify_chain_rpc_urls probes g).1 (
          if is_empty (to_probe g)
          then old
          else answered (verify_chain_rpc_urls probes (to_probe g)) probes old)
  unfolding reverify_chain_rpc_urls
  reverify-IsArmed probes old g h = elim (Bool-cases (is_empty (to_probe g))) [
    | inl e ↦ rw e h
    | inr e ↦
        rw e (commit_reverified-IsArmed probes old (to_probe g) g _ refl (probed-IsWithin g h) h)
  ]

  record IsGuarded (s : Session) : Type 0 where
    armed : IsArmed s.gate s.probes
    cache_within : IsWithin s.cache

  nonempty_url-some : (o : Option Text) (url : Text) → nonempty_url o ≡ some url → o ≡ some url
  nonempty_url-some none url h = h
  nonempty_url-some (some x) url h = elim (Bool-cases (is_nonempty x)) [
    | inl e ↦ rw e at h
    | inr e ↦ absurd (none-ne-some url (rw e at h))
  ]

  -- Without the opt-out, only a verified endpoint resolves.
  verified_web3-some :
      (g : Gate) (k : ℕ) (own : Table Text) (url : Text)
      → g.allow_unverified ≡ false
      → verified_web3 g k own ≡ some url
      → find k g.verified_urls ≡ some url
  unfolding verified_web3
  verified_web3-some g k own url closed h = elim (Bool-cases (is_empty g.verified_urls)) [
    | inl e ↦ absurd (none-ne-some url (rw (e, closed) at h))
    | inr e ↦ nonempty_url-some (find k g.verified_urls) url (rw e at h)
  ]

  set_default-IsWithin :
      (k : ℕ) (client : Text) (o : Option Text) (cache : Table Text)
      → find k urls ≡ some client
      → IsWithin cache
      → IsWithin (set_default k client o cache).1
  set_default-IsWithin k client none cache f h j url e =
      ground (arith, find-put k j client cache, h j url, f, ==_iff k j)
  set_default-IsWithin k client (some held) cache f h j url e = h j url e

  take_out-IsWithin : (k : ℕ) (cache : Table Text) → IsWithin cache → IsWithin (take_out k cache)
  take_out-IsWithin k cache h j url e = ground (arith, find-take_out k j cache, h j url)

  request-IsWithin :
      (g : Gate) (k : ℕ) (own cache : Table Text) (probes : Probes)
      → IsArmed g probes
      → IsWithin cache
      → IsWithin (require_verified_web3 g k own cache).1
  unfolding require_verified_web3
  request-IsWithin g k own cache probes armed h = elim (Option-cases (verified_web3 g k own)) [
    | inl e ↦ rw (require_verified_web3, e) (take_out-IsWithin k cache h)
    | inr (client, e) ↦
        rw (require_verified_web3, e)
          (set_default-IsWithin k client (find k cache) cache
            (armed.verified_within k client (verified_web3-some g k own client armed.opted e)) h)
  ]

  perform-IsGuarded : (o : Step) (s : Session) → IsGuarded s → IsGuarded (perform o s)
  unfolding perform
  perform-IsGuarded (start sapphire probes) s h = record {
    armed = initialize-IsArmed sapphire probes s.probes s.gate h.armed;
    cache_within = h.cache_within;
  }
  perform-IsGuarded (recheck probes) s h = record {
    armed = reverify-IsArmed probes s.probes s.gate h.armed;
    cache_within = h.cache_within;
  }
  perform-IsGuarded (request k own) s h = record {
    armed = h.armed;
    cache_within = request-IsWithin s.gate k own s.cache s.probes h.armed h.cache_within;
  }

  run-IsGuarded : (os : List Step) (s : Session) → IsGuarded s → IsGuarded (run os s)
  unfolding run
  run-IsGuarded [] s h = h
  run-IsGuarded (o ∷ os) s h = run-IsGuarded os (perform o s) (perform-IsGuarded o s h)

  started-IsGuarded : (probes : Probes) → IsGuarded (started urls probes)
  unfolding find
  started-IsGuarded probes = record {
    armed = record {
      opted = refl;
      proven = λ k url e. absurd (none-ne-some url e);
      verified_within = IsWithin-none;
      configured_within = IsWithin-none;
      settings_within = λ k url e. e;
    };
    cache_within = IsWithin-none;
  }

  handed :
      (k : ℕ) (client url : Text) (o : Option Text) (cache : Table Text)
      → (set_default k client o cache).0 ≡ ok url
      → (url ≡ client) ⊎ (o ≡ some url)
  handed k client url none cache h = inl (ok-injective url client (sym h))
  handed k client url (some held) cache h = inr (ap some (ok-injective held url h))

  module _ (os : List Step) (probes : Probes) (k : ℕ) (own : Table Text) (url : Text) where
    -- In any run of passes and requests from the start of the process, without the opt-out: a
    -- client that is handed out for a chain is that of the endpoint configured for it, and the last
    -- pass that ended normally was answered by this endpoint with the chain's own id, although
    -- callers bring their own mappings and keep the clients that they have been given.
    pub run-serves_proven :
        (require_verified_web3
            (run os (started urls probes)).gate
            k
            own
            (run os (started urls probes)).cache).0
          ≡ ok url
        → (find k urls ≡ some url) × ((run os (started urls probes)).probes k url ≡ ok k)
    unfolding require_verified_web3
    run-serves_proven h =
        let s = run os (started urls probes) in
        let safe = run-IsGuarded os (started urls probes) (started-IsGuarded probes) in
        elim (Option-cases (verified_web3 s.gate k own)) [
          | inl e ↦ absurd (ok-ne-raise url _ (sym (rw (require_verified_web3, e) at h)))
          | inr (client, e) ↦
              let verified = verified_web3-some s.gate k own client safe.armed.opted e in
              let configured = safe.armed.verified_within k client verified in
              let same : url ≡ client =
                elim (handed k client url (find k s.cache) s.cache
                  (rw (require_verified_web3, e) at h)) [
                    | inl x ↦ x
                    | inr x ↦
                        some-injective url client (sym (safe.cache_within k url x) ∙ configured)
                  ] in
              rw same (configured, safe.armed.proven k client verified)
        ]
