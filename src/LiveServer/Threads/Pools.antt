-- ===== src/LiveServer/Threads/Pools.antt =====
-- What every schedule keeps of a pool of threads that fit.
use mindorr.Prelude.{
  ℕ, zero, suc, ◌+◌, ◌≤◌, ◌<◌, Bool, true, false, List, [], ◌∷◌, ◌≡◌, refl, ◌⊎◌, inl, inr,
  Bool-cases, arith, String, ap, sym, subst,
}
use mindorr.LiveServer.Proxy.{Proxy, Instruction}
use mindorr.LiveServer.Threads.{Program}
use mindorr.LiveServer.Threads.Fitting.{
  Duty, Fits, responds, acquires, releases, sends, fetches, waits,
}
use mindorr.LiveServer.Threads.Turns.{turn, turn_at}

-- Threads that fit, one of which holds the mutex or none, with a bound on all their turns.
pub data AllFit (A : Duty) : Bool → ℕ → List Program → Type 0 where
  nobody : AllFit A false 0 []
  outside :
      {c : Bool} {total : ℕ} {t : Program} {ts : List Program}
      → (n m : ℕ) → total ≡ n + m
      → Fits A false n t
      → AllFit A c m ts
      → AllFit A c total (t ∷ ts)
  inside :
      {total : ℕ} {t : Program} {ts : List Program}
      → (n m : ℕ) → total ≡ n + m
      → Fits A true n t
      → AllFit A false m ts
      → AllFit A true total (t ∷ ts)

-- A thread put before threads that do not hold the mutex.
pub place :
    {A : Duty} (c : Bool) {total : ℕ} {t : Program} {ts : List Program} (n m : ℕ)
    → total ≡ n + m
    → Fits A c n t
    → AllFit A false m ts
    → AllFit A c total (t ∷ ts)
place true n m e f fs = inside n m e f fs
place false n m e f fs = outside n m e f fs

-- `P` is a property of worlds that each call which the threads may make keeps.
module _ (p : Proxy) (A : Duty) (P : p.World → Type 0)
    (keep_get : (url : String) (w : p.World) → P w → P (p.get url w).1)
    (keep_sleep : (w : p.World) → P w → P (p.sleep w))
    (keep_post : (url : String) (i : Instruction) (w : p.World)
      → A.may_send url i
      → P w
      → P (p.post url i w).1) where
  open p use {World}

  -- A turn of a thread that had `n` turns: it has fewer now, or nothing has changed.
  record Turned (c : Bool) (n : ℕ) (before after : Program × Bool × World) : Type 0 where
    left : ℕ
    fits : Fits A c left after.0
    keeps : P after.2
    moves : (left < n) ⊎ ((left ≡ n) × (after ≡ before))

  moved :
      {c : Bool} {n : ℕ} {before after : Program × Bool × World}
      → Fits A c n after.0
      → P after.2
      → Turned c (suc n) before after
  moved {n} f k = record { left = n; fits = f; keeps = k; moves = inl (omega arith) }

  stays :
      {c : Bool} {n : ℕ} {t : Program} {h : Bool} {w : World}
      → Fits A c n t
      → P w
      → Turned c n (t, h, w) (t, h, w)
  stays {n} f k = record { left = n; fits = f; keeps = k; moves = inr (refl, refl) }

  -- While another thread holds the mutex.
  turn-others :
      {n : ℕ} {t : Program} (w : World)
      → Fits A false n t
      → P w
      → Turned false n (t, true, w) (turn p t true w) × ((turn p t true w).1 ≡ true)
  unfolding turn
  turn-others w (responds a) k = (stays (responds a) k, refl)
  turn-others w (acquires f) k = (stays (acquires f) k, refl)
  turn-others w (fetches f) k = (moved (f _) (keep_get _ w k), refl)
  turn-others w (waits f) k = (moved f (keep_sleep w k), refl)

  -- While no thread holds it.
  turn-free :
      {n : ℕ} {t : Program} (w : World)
      → Fits A false n t
      → P w
      → Turned (turn p t false w).1 n (t, false, w) (turn p t false w)
  unfolding turn
  turn-free w (responds a) k = stays (responds a) k
  turn-free w (acquires f) k = moved f k
  turn-free w (fetches f) k = moved (f _) (keep_get _ w k)
  turn-free w (waits f) k = moved f (keep_sleep w k)

  -- While the thread itself holds it.
  turn-holder :
      {n : ℕ} {t : Program} (w : World)
      → Fits A true n t
      → P w
      → Turned (turn p t true w).1 n (t, true, w) (turn p t true w)
  unfolding turn
  turn-holder w (releases f) k = moved f k
  turn-holder w (sends {url = url} {i = i} a f) k = elim (Bool-cases (p.hangs url i w)) [
    | inl hung ↦ rw (turn, hung) (stays (sends a f) k)
    | inr goes ↦ rw (turn, goes) (moved (f _) (keep_post _ _ w a k))
  ]

  -- The same of a turn among several threads.
  pub record AllTurned (c : Bool) (total : ℕ) (before after : List Program × Bool × World)
      : Type 0 where
    pub left : ℕ
    pub fits : AllFit A c left after.0
    pub keeps : P after.2
    pub moves : (left < total) ⊎ ((left ≡ total) × (after ≡ before))

  relabel :
      {c d : Bool} {total : ℕ} {ts : List Program}
      → d ≡ c
      → AllFit A c total ts
      → AllFit A d total ts
  relabel {total = total} {ts = ts} e f = subst (λ b. AllFit A b total ts) (sym e) f

  -- The first thread has a turn, and the others wait.
  first-turns :
      {c c' : Bool} {total n : ℕ} (m : ℕ) {before after : Program × Bool × World}
      {ts : List Program}
      → total ≡ n + m
      → Turned c n before after
      → ((k : ℕ) → k ≤ n → Fits A c k after.0 → AllFit A c' (k + m) (after.0 ∷ ts))
      → AllTurned c' total (before.0 ∷ ts, before.1, before.2) (after.0 ∷ ts, after.1, after.2)
  first-turns m {ts = ts} e turned build = record {
    left = turned.left + m;
    fits = build turned.left (ground (arith, turned.moves)) turned.fits;
    keeps = turned.keeps;
    moves = elim turned.moves [
      | inl fewer ↦ inl (omega (arith, fewer, e))
      | inr (same, unchanged) ↦ inr (
        omega (arith, same, e),
        ap (λ (x : Program × Bool × World). (x.0 ∷ ts, x.1, x.2)) unchanged,
      )
    ];
  }

  -- One of the others has a turn.
  rest-turns :
      {c c' : Bool} {total m : ℕ} (n : ℕ) {t : Program} {before after : List Program × Bool × World}
      → total ≡ n + m
      → AllTurned c m before after
      → ((k : ℕ) → AllFit A c k after.0 → AllFit A c' (n + k) (t ∷ after.0))
      → AllTurned c' total (t ∷ before.0, before.1, before.2) (t ∷ after.0, after.1, after.2)
  rest-turns n {t = t} e turned build = record {
    left = n + turned.left;
    fits = build turned.left turned.fits;
    keeps = turned.keeps;
    moves = elim turned.moves [
      | inl fewer ↦ inl (omega (arith, fewer, e))
      | inr (same, unchanged) ↦ inr (
        omega (arith, same, e),
        ap (λ (x : List Program × Bool × World). (t ∷ x.0, x.1, x.2)) unchanged,
      )
    ];
  }

  turn_at-others :
      (i : ℕ) {total : ℕ} {ts : List Program} (w : World)
      → AllFit A false total ts
      → P w
      → AllTurned false total (ts, true, w) (turn_at p i ts true w)
        × ((turn_at p i ts true w).1 ≡ true)
  unfolding turn_at
  turn_at-others i w nobody k =
      (record { left = 0; fits = nobody; keeps = k; moves = inr (refl, refl) }, refl)
  turn_at-others zero w (outside n m e f fs) k =
      let (turned, held) = turn-others w f k in
      (first-turns m e turned (λ j le g. outside j m refl g fs), held)
  turn_at-others (suc i) w (outside n m e f fs) k =
      let (turned, held) = turn_at-others i w fs k in
      (rest-turns n e turned (λ j g. outside n j refl f g), held)

  pub turn_at-fits :
      (i : ℕ) {total : ℕ} (h : Bool) {ts : List Program} (w : World)
      → AllFit A h total ts
      → P w
      → AllTurned (turn_at p i ts h w).1 total (ts, h, w) (turn_at p i ts h w)
  unfolding turn_at
  turn_at-fits i h w nobody k = record {
    left = 0;
    fits = nobody;
    keeps = k;
    moves = inr (refl, refl);
  }
  turn_at-fits zero true w (outside n m e f fs) k =
      let (turned, held) = turn-others w f k in
      first-turns m e turned (λ j le g. relabel held (outside j m refl g fs))
  turn_at-fits zero false w (outside n m e f fs) k =
      first-turns m e (turn-free w f k) (λ j le g. place _ j m refl g fs)
  turn_at-fits (suc i) h w (outside n m e f fs) k =
      rest-turns n e (turn_at-fits i h w fs k) (λ j g. outside n j refl f g)
  turn_at-fits zero h w (inside n m e f fs) k =
      first-turns m e (turn-holder w f k) (λ j le g. place _ j m refl g fs)
  turn_at-fits (suc i) h w (inside n m e f fs) k =
      let (turned, held) = turn_at-others i w fs k in
      rest-turns n e turned (λ j g. relabel held (inside n j refl f g))
