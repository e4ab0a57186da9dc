-- ===== src/Extension/Threads/Serial/Ordered.antt =====
-- The goroutines of Serial over a whole schedule, against the same requests in a row.
use mindorr.Prelude.{ℕ, List, [], ◌∷◌, ◌≡◌, refl, arith, ap, sym, subst, map}
use mathlib.Core.List.{Perm}
use mathlib.Core.List.Perm
use mindorr.Extension.Threads.Locking.{
  Thread, Held, readers, writer, Pool, turn_at, run_schedule, alone, answered_so_far,
}
use mindorr.Extension.Threads.Serial.{
  leaves, looks, changes, IsBracketed, ends, enters, Serves, nothing, later, Calm, nobody, waits,
  reads, done, Busy, writes, Grows, same, more,
}
use mindorr.Extension.Threads.Serial.Turning.{
  CalmTurn, calm, claimed, BusyTurn, busy, freed, turn_at-CalmTurn, turn_at-BusyTurn,
}

module _ {R M O : Type 0} (handle : R → M → O × M) where
  pub Calm-answered_so_far :
      {m : M} {n : ℕ} {rs : List R} {ts : List (Thread M O)} {d : List (R × O)}
      → Calm handle m n rs ts d
      → answered_so_far rs ts ≡ d
  Calm-answered_so_far nobody = refl
  Calm-answered_so_far (waits s e c) = Calm-answered_so_far c
  Calm-answered_so_far (reads leaves e c) = Calm-answered_so_far c
  Calm-answered_so_far (reads (looks f) e c) = Calm-answered_so_far c
  Calm-answered_so_far (done {r = r} {o = o} c) = ap (λ l. (r, o) ∷ l) (Calm-answered_so_far c)

  pub Busy-answered_so_far :
      {m v : M} {rs : List R} {ts : List (Thread M O)} {d : List (R × O)}
      → Busy handle m v rs ts d
      → answered_so_far rs ts ≡ d
  Busy-answered_so_far (writes leaves e c) = Calm-answered_so_far c
  Busy-answered_so_far (writes (looks f) e c) = Calm-answered_so_far c
  Busy-answered_so_far (writes (changes s) e c) = Calm-answered_so_far c
  Busy-answered_so_far (waits s e b) = Busy-answered_so_far b
  Busy-answered_so_far (done {r = r} {o = o} b) = ap (λ l. (r, o) ∷ l) (Busy-answered_so_far b)

  -- What holds between two turns: the requests that are done, handled one after the other in some
  -- order, lead to the memory, or to the one that a writer has found.
  pub data Orderly (start : M) (rs : List R) : Pool M O → Type 0 where
    quiet :
        {log d : List (R × O)} {ts : List (Thread M O)} {m : M} {k : ℕ}
        → Serves handle start log m
        → Perm log d
        → Calm handle m k rs ts d
        → Orderly start rs (ts, readers k, m)
    writing :
        {log d : List (R × O)} {ts : List (Thread M O)} {m v : M}
        → Serves handle start log m
        → Perm log d
        → Busy handle m v rs ts d
        → Orderly start rs (ts, writer, v)

  Grows-Serves :
      (start m v : M) (d d' log : List (R × O))
      → Grows handle m v d d'
      → Serves handle start log m
      → Perm log d
      → (log' : List (R × O)) × Serves handle start log' v × Perm log' d'
  Grows-Serves start m v d d' log (same e) s p = (log, subst (Serves handle start log) e s, p)
  Grows-Serves start m v d d' log (more h q) s p =
      (_, later s h, Perm.trans (Perm.cons _ p) (Perm.symm q))

  CalmTurn-Orderly :
      (start m : M) (rs : List R) (k : ℕ) (d log : List (R × O)) (q : Pool M O)
      → Serves handle start log m
      → Perm log d
      → CalmTurn handle m k k rs d q
      → Orderly start rs q
  CalmTurn-Orderly start m rs k d log q s p
        (calm {k' = k'} {n' = n'} {d' = d'} {ts = ts} c g next) =
      let (log', s', p') = Grows-Serves start m m d _ log g s p in
      let same_count : n' ≡ k' = omega (arith, c) in
      quiet s' p' (subst (λ n. Calm handle m n rs ts d') same_count next)
  CalmTurn-Orderly start m rs k d log q s p (claimed none next) = writing s p next

  BusyTurn-Orderly :
      (start m v : M) (rs : List R) (d log : List (R × O)) (q : Pool M O)
      → Serves handle start log m
      → Perm log d
      → BusyTurn handle m v rs d q
      → Orderly start rs q
  BusyTurn-Orderly start m v rs d log q s p (busy next) = writing s p next
  BusyTurn-Orderly start m v rs d log q s p (freed g next) =
      let (log', s', p') = Grows-Serves start m v d _ log g s p in quiet s' p' next

  turn_at-Orderly :
      (start : M) (rs : List R) (i : ℕ) (ts : List (Thread M O)) (h : Held) (m : M)
      → Orderly start rs (ts, h, m)
      → Orderly start rs (turn_at i ts h m)
  turn_at-Orderly start rs i ts h m (quiet {k = k} s p c) =
      CalmTurn-Orderly start m rs k _ _ _ s p (turn_at-CalmTurn handle m k i k (omega arith) c)
  turn_at-Orderly start rs i ts h v (writing {m = m} s p b) =
      BusyTurn-Orderly start m v rs _ _ _ s p (turn_at-BusyTurn handle m v i b)

  pub run_schedule-Orderly :
      (start : M) (rs : List R) (schedule : List ℕ) (pool : Pool M O)
      → Orderly start rs pool
      → Orderly start rs (run_schedule schedule pool)
  unfolding run_schedule
  run_schedule-Orderly start rs [] pool o = o
  run_schedule-Orderly start rs (i ∷ schedule) (ts, h, m) o =
      run_schedule-Orderly start rs schedule (turn_at i ts h m)
        (turn_at-Orderly start rs i ts h m o)

module _ {R M O : Type 0} (handle : R → M → O × M) (start : R → Thread M O)
    (brackets : (r : R) → IsBracketed (start r))
    (agrees : (r : R) (m : M) → alone (start r) m ≡ handle r m) where
  abbrev pub Started : M → List R → List (Thread M O) → Type 0
  Started m rs ts = (d : List (R × O)) × Calm handle m 0 rs ts d × Serves handle m d m

  cons-Started :
      (m : M) (r : R) {t : Thread M O} (rs : List R) (ts : List (Thread M O))
      → IsBracketed t
      → ((v : M) → alone t v ≡ handle r v)
      → Started m rs ts
      → Started m (r ∷ rs) (t ∷ ts)
  unfolding alone
  cons-Started m r rs ts (ends {o = o}) e (d, c, s) = ((r, o) ∷ d, done c, later s (sym (e m)))
  cons-Started m r rs ts (enters x) e (d, c, s) = (d, waits x e c, s)

  -- Goroutines that are started together.
  pub start-Started : (m : M) (rs : List R) → Started m rs (map start rs)
  start-Started m [] = ([], nobody, nothing)
  start-Started m (r ∷ rs) =
      cons-Started m r rs (map start rs) (brackets r) (agrees r) (start-Started m rs)

  pub started-Orderly : (m : M) (rs : List R) → Orderly handle m rs (map start rs, readers 0, m)
  started-Orderly m rs = let (d, c, s) = start-Started m rs in quiet s (Perm.refl d) c
