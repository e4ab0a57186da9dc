-- ===== src/LiveServer/Proxy/Polling.antt =====
-- What `poll` answers: the first round that settles the matter decides, of sixty at most.
use mindorr.Prelude.{
  ◌∙◌, ℕ, zero, suc, ◌+◌, ◌<◌, Bool, true, false, ◌≡◌, refl, Option, none, some, Result, ok, err,
  if◌then◌else◌, concat, [], ◌∷◌, String, arith,
}
use mindorr.Wire.{Hash}
use mindorr.LiveServer.Proxy.{
  Proxy, ActionResult, Fetched, ready, not_ready, failed, fetch_submit_result, poll_from, poll,
  poll_rounds,
}

-- A result and an error settle a poll; "not ready" does not.
abbrev pub settled : Fetched → Option (Result ActionResult)
settled (ready r) = some (ok r)
settled (failed e) = some (err e)
settled not_ready = none

abbrev is_first : ℕ → Bool
is_first zero = true
is_first (suc k) = false

module _ (p : Proxy) (url : String) (id : Hash) where
  open p use {World, sleep, hex}

  abbrev pause : ℕ → World → World
  pause k w = if is_first k then w else sleep w

  -- The world after `k` rounds that all went on.
  unfoldable pub after : ℕ → World → World
  after zero w = w
  after (suc k) w = (fetch_submit_result p url id (pause k (after k w))).1

  -- What round `k`, from 0, gets if it is made.
  unfoldable pub answer : ℕ → World → Fetched
  unfolding after
  answer k w = (fetch_submit_result p url id (pause k (after k w))).0

  abbrev pub AllWait : ℕ → World → Type 0
  AllWait k w = (j : ℕ) → j < k → settled (answer j w) ≡ none

  step_settled :
      (n : ℕ) (first : Bool) (w : World) {x : Result ActionResult}
      → settled (fetch_submit_result p url id (if first then w else sleep w)).0 ≡ some x
      → poll_from p url id (suc n) first w
        ≡ (x, (fetch_submit_result p url id (if first then w else sleep w)).1)
  unfolding poll_from
  step_settled n first w h = ground arith

  step_wait :
      (n : ℕ) (first : Bool) (w : World)
      → settled (fetch_submit_result p url id (if first then w else sleep w)).0 ≡ none
      → poll_from p url id (suc n) first w
        ≡ poll_from p url id n false (fetch_submit_result p url id (if first then w else sleep w)).1
  unfolding poll_from
  step_wait n first w h = ground arith

  poll_from_first :
      (n m d k : ℕ) (w : World) {x : Result ActionResult}
      → k ≡ m + d
      → d < n
      → AllWait k w
      → settled (answer k w) ≡ some x
      → poll_from p url id n (is_first m) (after m w) ≡ (x, after (suc k) w)
  unfolding after answer
  poll_from_first zero m d k w e h before now = elim h [ ]
  poll_from_first (suc n) m zero k w {x} e h before now =
      let here : k ≡ m = omega arith in
      rw here (step_settled n (is_first m) (after m w) (rw here at now))
  poll_from_first (suc n) m (suc d) k w {x} e h before now =
      step_wait n (is_first m) (after m w) (before m (omega arith))
      ∙ poll_from_first n (suc m) d k w (omega arith) (omega arith) before now

  abbrev pub timeout_answer : Result ActionResult
  timeout_answer = err (concat ("direct action " ∷ hex id ∷ " not processed after 60s" ∷ []))

  poll_from_expired :
      (n m k : ℕ) (w : World)
      → k ≡ m + n
      → AllWait k w
      → poll_from p url id n (is_first m) (after m w) ≡ (timeout_answer, after k w)
  unfolding after answer poll_from
  poll_from_expired zero m k w e h = let here : k ≡ m = omega arith in rw here refl
  poll_from_expired (suc n) m k w e h =
      step_wait n (is_first m) (after m w) (h m (omega arith))
      ∙ poll_from_expired n (suc m) k w (omega arith) h

  -- The first round before the sixtieth that settles the matter gives the answer, and no request
  -- is made behind it.
  pub poll_first_answer :
      (k : ℕ) (w : World) {x : Result ActionResult}
      → k < poll_rounds
      → AllWait k w
      → settled (answer k w) ≡ some x
      → poll p url id w ≡ (x, after (suc k) w)
  unfolding poll after
  poll_first_answer k w h before now =
      poll_from_first poll_rounds 0 k k w (omega arith) h before now

  -- If sixty rounds say "not ready", `poll` gives up with an error after exactly those.
  pub poll_expired :
      (w : World) → AllWait poll_rounds w → poll p url id w ≡ (timeout_answer, after poll_rounds w)
  unfolding poll after
  poll_expired w h = poll_from_expired poll_rounds 0 poll_rounds w (omega arith) h
