-- ===== src/LiveServer/Threads/Moving.antt =====
-- The turns that take the threads nearer to their ends.
use mindorr.Prelude.{
  ℕ, suc, ◌+◌, ◌<◌, Bool, true, false, List, ◌≡◌, refl, ◌⊎◌, inl, inr, arith, length, all,
}
use mindorr.LiveServer.Proxy.{Proxy}
use mindorr.LiveServer.Threads.{Program, respond, acquire, release, send, fetch, wait}
use mindorr.LiveServer.Threads.Fitting.{
  Duty, Fits, responds, acquires, releases, sends, fetches, waits,
}
use mindorr.LiveServer.Threads.Pools.{AllFit, nobody, outside, inside, place}
use mindorr.LiveServer.Threads.Turns.{AllAnswered, turn, turn_at}

abbrev pub is_done : Program → Bool
is_done (respond w) = true
is_done (acquire next) = false
is_done (release next) = false
is_done (send url i next) = false
is_done (fetch url next) = false
is_done (wait next) = false

module _ (p : Proxy) where
  open p use {World}

  module _ (A : Duty) where
    -- The turn of a thread leaves fewer turns to all.
    abbrev pub Moves : ℕ → List Program → Bool → World → ℕ → Type 0
    Moves i ts h w total =
        (left : ℕ) × (left < total) × AllFit A (turn_at p i ts h w).1 left (turn_at p i ts h w).0

    free-Moves :
        {n : ℕ} {t : Program} (w : World)
        → Fits A false n t
        → (is_done t ≡ true)
          ⊎ ((left : ℕ) × (left < n) × Fits A (turn p t false w).1 left (turn p t false w).0)
    unfolding turn
    free-Moves w (responds a) = inl refl
    free-Moves w (acquires {n = n} f) = inr (n, omega arith, f)
    free-Moves w (fetches {n = n} f) = inr (n, omega arith, f _)
    free-Moves w (waits {n = n} f) = inr (n, omega arith, f)

    holder-Moves :
        {n : ℕ} {t : Program} (w : World)
        → AllAnswered p
        → Fits A true n t
        → (left : ℕ) × (left < n) × Fits A (turn p t true w).1 left (turn p t true w).0
    unfolding turn
    holder-Moves w answered (releases {n = n} f) = (n, omega arith, f)
    holder-Moves w answered (sends {n = n} {url = url} {i = i} a f) =
        rw (turn, answered url i w) (n, omega arith, f _)

    held-Moves :
        {total : ℕ} {ts : List Program} (w : World)
        → AllAnswered p
        → AllFit A true total ts
        → (i : ℕ) × (i < length ts) × Moves i ts true w total
    unfolding turn_at
    held-Moves w answered (inside n m e f fs) =
        let (left, fewer, g) = holder-Moves w answered f in
        (0, omega arith, (left + m, omega (arith, fewer, e), place _ left m refl g fs))
    held-Moves w answered (outside n m e f fs) =
        let (i, lt, (left, fewer, gs)) = held-Moves w answered fs in
        (suc i, omega (arith, lt), (n + left, omega (arith, fewer, e), outside n left refl f gs))

    unheld-Moves :
        {total : ℕ} {ts : List Program} (w : World)
        → AllFit A false total ts
        → (all is_done ts ≡ true) ⊎ ((i : ℕ) × (i < length ts) × Moves i ts false w total)
    unfolding turn_at
    unheld-Moves w nobody = inl refl
    unheld-Moves w (outside n m e f fs) = elim (free-Moves w f) [
      | inr (left, fewer, g) ↦
          inr (0, omega arith, (left + m, omega (arith, fewer, e), place _ left m refl g fs))
      | inl done ↦ elim (unheld-Moves w fs) [
        | inl others ↦ inl (ground arith)
        | inr (i, lt, (left, fewer, gs)) ↦ inr (
          suc i,
          omega (arith, lt),
          (n + left, omega (arith, fewer, e), outside n left refl f gs),
        )
      ]
    ]

    -- No deadlock, if every `http.Post` is answered: all threads are done, or the turn of one of them leaves fewer turns to all.
    pub some-Moves :
        {total : ℕ} {ts : List Program} (h : Bool) (w : World)
        → AllAnswered p
        → AllFit A h total ts
        → (all is_done ts ≡ true) ⊎ ((i : ℕ) × (i < length ts) × Moves i ts h w total)
    some-Moves true w answered fs = inr (held-Moves w answered fs)
    some-Moves false w answered fs = unheld-Moves w fs
