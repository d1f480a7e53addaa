-- ===== src/Auth/RateLimiter.antt =====
-- The limits on the authentication endpoints: `src/auth/rate_limiter.py`. The clock counts
-- microseconds, and the lifetimes that the code cuts to whole seconds are multiples of a million.
use privana.Prelude.{
  ℕ, suc, ◌+◌, ◌-◌, ◌*◌, ◌/◌, ◌≤◌, ◌<◌, max, min, ◌≡◌, refl, ap, ◌∙◌, true, false, ◌||◌, Option,
  none, some, List, [], ◌∷◌, ◌++◌, arith, leb, Bool-cases, inl, inr, length, if◌then◌else◌,
}
use privana.Text.{Text, text_eq_refl, codes}
use privana.Auth.DiskCache.{DiskCache}

pub record Window : Type 0 where
  pub count : ℕ
  pub reset_at : ℕ

abbrev pub second : ℕ
second = 1000000

abbrev pub limit_key : Text → Text → Text
limit_key bucket key = codes "rate_limit:" ++ bucket ++ codes ":" ++ key

-- `max(1, int(reset_at - now))`
abbrev pub seconds_left : ℕ → ℕ → ℕ
seconds_left reset_at now = max 1 ((reset_at - now) / second)

-- One more is let through, or not.
abbrev tally : Option ℕ → ℕ → ℕ
tally none n = suc n
tally (some retry_after) n = n

module _ (D : DiskCache Window) where
  unfoldable pub open_window : ℕ → Text → ℕ → D.Store → D.Store
  open_window now k window_seconds c =
      D.set now k (record { count = 1; reset_at = now + window_seconds * second })
        (window_seconds * second) c

  -- Under the lock, for a key with its limit.
  unfoldable pub count_hit : ℕ → Text → ℕ → ℕ → Option Window → D.Store → Option ℕ × D.Store
  count_hit now k limit window_seconds none c = (none, open_window now k window_seconds c)
  count_hit now k limit window_seconds (some w) c =
      if leb w.reset_at now
      then (none, open_window now k window_seconds c)
      else (if leb limit w.count then (some (seconds_left w.reset_at now), c) else (
        none,
        D.set now k (record { count = suc w.count; reset_at = w.reset_at })
            (seconds_left w.reset_at now * second) c,
      ))

  -- `none` lets the request through; otherwise the client is told after how many seconds to retry.
  unfoldable pub hit : ℕ → Text → Text → ℕ → ℕ → D.Store → Option ℕ × D.Store
  hit now bucket key limit window_seconds c =
      if leb limit 0 || leb window_seconds 0
      then (none, c)
      else count_hit now (limit_key bucket key) limit window_seconds
          (D.get now (limit_key bucket key) c) c

  -- How many of a sequence of requests, each some time after the one before, are let through.
  unfoldable pub passed : ℕ → Text → Text → ℕ → ℕ → List ℕ → D.Store → ℕ
  passed now bucket key limit window_seconds [] c = 0
  passed now bucket key limit window_seconds (wait ∷ waits) c =
      let r = hit (now + wait) bucket key limit window_seconds c in
      let rest = passed (now + wait) bucket key limit window_seconds waits r.1 in tally r.0 rest

abbrev pub total : List ℕ → ℕ
total [] = 0
total (wait ∷ waits) = wait + total waits

module _ (D : DiskCache Window) (bucket key : Text) (limit window_seconds : ℕ)
    (some_limit : 1 ≤ limit) (some_window : 1 ≤ window_seconds) where
  abbrev k : Text
  k = limit_key bucket key

  -- The entry of the key from a time on, until a second before its window ends.
  abbrev IsOpen : ℕ → Window → D.Store → Type 0
  IsOpen t w c = (u : ℕ) → t ≤ u → u + second ≤ w.reset_at → D.get u k c ≡ some w

  IsOpen-set :
      (t ttl : ℕ) (w : Window) (c : D.Store)
      → w.reset_at < t + ttl + second
      → IsOpen t w (D.set t k w ttl c)
  IsOpen-set t ttl w c long u le before =
      D.get-set t u ttl k k w c le ∙ rw (text_eq_refl k) (ground arith)

  passed-step :
      (t wait : ℕ) (waits : List ℕ) (c : D.Store) (r : Option ℕ × D.Store)
      → hit D (t + wait) bucket key limit window_seconds c ≡ r
      → passed D t bucket key limit window_seconds (wait ∷ waits) c
        ≡ tally r.0 (passed D (t + wait) bucket key limit window_seconds waits r.1)
  unfolding passed
  passed-step t wait waits c r e =
      ap (λ r. tally r.0 (passed D (t + wait) bucket key limit window_seconds waits r.1)) e

  is_limited : leb limit 0 || leb window_seconds 0 ≡ false
  is_limited = ground (arith, some_limit, some_window)

  hit-full :
      (now : ℕ) (w : Window) (c : D.Store)
      → D.get now k c ≡ some w
      → now + second ≤ w.reset_at
      → leb limit w.count ≡ true
      → hit D now bucket key limit window_seconds c ≡ (some (seconds_left w.reset_at now), c)
  unfolding hit count_hit
  hit-full now w c found before full =
      let live : leb w.reset_at now ≡ false = ground arith in
      rw (hit, is_limited, found, live, full) refl

  -- The cache after a request that is counted.
  abbrev counted : ℕ → Window → D.Store → D.Store
  counted now w c =
      D.set now k (record { count = suc w.count; reset_at = w.reset_at })
        (seconds_left w.reset_at now * second) c

  hit-room :
      (now : ℕ) (w : Window) (c : D.Store)
      → D.get now k c ≡ some w
      → now + second ≤ w.reset_at
      → leb limit w.count ≡ false
      → hit D now bucket key limit window_seconds c ≡ (none, counted now w c)
  unfolding hit count_hit
  hit-room now w c found before room =
      let live : leb w.reset_at now ≡ false = ground arith in
      rw (hit, is_limited, found, live, room) refl

  hit-new :
      (now : ℕ) (c : D.Store)
      → D.get now k c ≡ none
      → hit D now bucket key limit window_seconds c ≡ (none, open_window D now k window_seconds c)
  unfolding hit count_hit
  hit-new now c absent = rw (hit, is_limited, absent) refl

  passed-open :
      (waits : List ℕ) (t : ℕ) (w : Window) (c : D.Store)
      → IsOpen t w c
      → t + total waits + second ≤ w.reset_at
      → passed D t bucket key limit window_seconds waits c ≡ min (limit - w.count) (length waits)
  unfolding passed
  passed-open [] t w c is_open before = omega arith
  passed-open (wait ∷ waits) t w c is_open before =
      let now = t + wait in
      let found = is_open now (omega arith) (omega (arith, before)) in
      elim (Bool-cases (leb limit w.count)) [
        | inl full ↦
            let no_room : limit - w.count ≡ 0 = ground (arith, full) in
            passed-step t wait waits c _ (hit-full now w c found (omega (arith, before)) full)
            ∙ (passed-open waits now w c (λ u le. is_open u (omega arith)) (omega (arith, before))
                ∙ omega (arith, no_room))
        | inr room ↦
            let some_room : w.count < limit = ground (arith, room) in
            passed-step t wait waits c _ (hit-room now w c found (omega (arith, before)) room)
            ∙ (omega (
              arith,
              some_room,
              passed-open waits now (record { count = suc w.count; reset_at = w.reset_at })
                  (counted now w c)
                  (IsOpen-set now _ (record { count = suc w.count; reset_at = w.reset_at }) c
                    (omega (arith, before)))
                  (omega (arith, before)),
            ))
      ]

  -- For a positive limit and window, and a client with no open window when its next request comes:
  -- of this request and those that follow until one second before the window that it opens ends,
  -- exactly the first `limit` are let through.
  pub window_budget :
      (t wait : ℕ) (waits : List ℕ) (c : D.Store)
      → D.get (t + wait) k c ≡ none
      → total waits + second ≤ window_seconds * second
      → passed D t bucket key limit window_seconds (wait ∷ waits) c ≡ min limit (suc (length waits))
  unfolding open_window
  window_budget t wait waits c absent before =
      let now = t + wait in
      let first : Window = record { count = 1; reset_at = now + window_seconds * second } in
      passed-step t wait waits c _ (hit-new now c absent)
      ∙ (omega (
        arith,
        some_limit,
        passed-open waits now first (open_window D now k window_seconds c)
            (IsOpen-set now (window_seconds * second) first c (omega arith))
            (omega (arith, before)),
      ))
