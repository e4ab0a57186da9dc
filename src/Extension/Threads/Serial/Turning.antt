-- ===== src/Extension/Threads/Serial/Turning.antt =====
-- One turn of the goroutines of Serial, while nobody writes and while one does.
use mindorr.Prelude.{ℕ, zero, suc, ◌+◌, ◌≤◌, List, ◌∷◌, ◌≡◌, refl, arith, ap, sym}
use mathlib.Core.List.Perm
use mindorr.Extension.Threads.Locking.{
  Access, exclusive, shared, Thread, yields, enter, readers, writer, turn, Pool, turn_at, alone,
}
use mindorr.Extension.Threads.Serial.{
  Section, leaves, looks, changes, Calm, nobody, waits, reads, done, Busy, writes, Calm-any, Grows,
  same, more, Grows-cons,
}

module _ {R M O : Type 0} (handle : R → M → O × M) where
  -- A turn while no one writes, of a part of the goroutines: `k` read, of them `n` in the part.
  pub data CalmTurn (m : M) (k n : ℕ) (rs : List R) (d : List (R × O)) : Pool M O → Type 0 where
    calm :
        {k' n' : ℕ} {d' : List (R × O)} {ts : List (Thread M O)}
        → k' + n ≡ k + n'
        → Grows handle m m d d'
        → Calm handle m n' rs ts d'
        → CalmTurn m k n rs d (ts, readers k', m)
    claimed :
        {ts : List (Thread M O)}
        → k ≡ 0
        → Busy handle m m rs ts d
        → CalmTurn m k n rs d (ts, writer, m)

  cons_reads-CalmTurn :
      (m : M) (k n : ℕ) {rs : List R} {d : List (R × O)} {r : R} {t : Thread M O} (q : Pool M O)
      → suc n ≤ k
      → Section shared t
      → alone t m ≡ handle r m
      → CalmTurn m k n rs d q
      → CalmTurn m k (suc n) (r ∷ rs) d (t ∷ q.0, q.1, q.2)
  cons_reads-CalmTurn m k n q le s e (calm c g next) = calm (omega arith) g (reads s e next)
  cons_reads-CalmTurn m k n q le s e (claimed none next) = absurd (omega (arith, le, none))

  cons_waits-CalmTurn :
      (m : M) (k n : ℕ) {rs : List R} {d : List (R × O)} {r : R} {a : Access} {t : Thread M O}
      (q : Pool M O)
      → Section a t
      → ((v : M) → alone t v ≡ handle r v)
      → CalmTurn m k n rs d q
      → CalmTurn m k n (r ∷ rs) d (enter a t ∷ q.0, q.1, q.2)
  cons_waits-CalmTurn m k n q s e (calm c g next) = calm c g (waits s e next)
  cons_waits-CalmTurn m k n q s e (claimed none next) = claimed none (waits s e next)

  cons_done-CalmTurn :
      (m : M) (k n : ℕ) {rs : List R} {d : List (R × O)} {r : R} {o : O} (q : Pool M O)
      → CalmTurn m k n rs d q
      → CalmTurn m k n (r ∷ rs) ((r, o) ∷ d) (yields o ∷ q.0, q.1, q.2)
  cons_done-CalmTurn m k n q (calm c g next) = calm c (Grows-cons handle m m _ _ _ g) (done next)
  cons_done-CalmTurn m k n q (claimed none next) = claimed none (done next)

  -- The turn of one that waits.
  enters-CalmTurn :
      (m : M) (k n : ℕ) {rs : List R} {ts : List (Thread M O)} {d : List (R × O)} {r : R}
      (a : Access) {t : Thread M O}
      → n ≤ k
      → Section a t
      → ((v : M) → alone t v ≡ handle r v)
      → Calm handle m n rs ts d
      → (let (t', h', m') = turn (enter a t) (readers k) m in
          CalmTurn m k n (r ∷ rs) d (t' ∷ ts, h', m'))
  unfolding turn
  enters-CalmTurn m zero zero exclusive le s e c = claimed refl (writes s (e m) c)
  enters-CalmTurn m zero (suc n) exclusive le s e c = absurd (omega (arith, le))
  enters-CalmTurn m (suc k) n exclusive le s e c = calm (omega arith) (same refl) (waits s e c)
  enters-CalmTurn m k n shared le s e c = calm (omega arith) (same refl) (reads s (e m) c)

  -- The turn of one that reads.
  reads-CalmTurn :
      (m : M) (k n : ℕ) {rs : List R} {ts : List (Thread M O)} {d : List (R × O)} {r : R}
      {t : Thread M O}
      → suc n ≤ k
      → Section shared t
      → alone t m ≡ handle r m
      → Calm handle m n rs ts d
      → (let (t', h', m') = turn t (readers k) m in
          CalmTurn m k (suc n) (r ∷ rs) d (t' ∷ ts, h', m'))
  unfolding turn alone
  reads-CalmTurn m zero n le leaves e c = absurd (omega (arith, le))
  reads-CalmTurn m (suc k) n le leaves e c =
      calm (omega arith) (more (sym e) (Perm.refl _)) (done c)
  reads-CalmTurn m k n le (looks f) e c = calm (omega arith) (same refl) (reads (f m) e c)

  -- Any turn while no one writes.
  pub turn_at-CalmTurn :
      (m : M) (k : ℕ) (i n : ℕ) {rs : List R} {ts : List (Thread M O)} {d : List (R × O)}
      → n ≤ k
      → Calm handle m n rs ts d
      → CalmTurn m k n rs d (turn_at i ts (readers k) m)
  unfolding turn_at turn
  turn_at-CalmTurn m k i n le nobody = calm (omega arith) (same refl) nobody
  turn_at-CalmTurn m k zero n le (waits {a = a} s e c) = enters-CalmTurn m k n a le s e c
  turn_at-CalmTurn m k zero (suc n) le (reads s e c) = reads-CalmTurn m k n le s e c
  turn_at-CalmTurn m k zero n le (done c) = calm (omega arith) (same refl) (done c)
  turn_at-CalmTurn m k (suc i) n le (waits s e c) =
      cons_waits-CalmTurn m k n _ s e (turn_at-CalmTurn m k i n le c)
  turn_at-CalmTurn m k (suc i) (suc n) le (reads s e c) =
      cons_reads-CalmTurn m k n _ le s e (turn_at-CalmTurn m k i n (omega (arith, le)) c)
  turn_at-CalmTurn m k (suc i) n le (done c) =
      cons_done-CalmTurn m k n _ (turn_at-CalmTurn m k i n le c)

  -- A turn while one writes, of goroutines with the writer: it goes on, or it is done.
  pub data BusyTurn (m v : M) (rs : List R) (d : List (R × O)) : Pool M O → Type 0 where
    busy :
        {v' : M} {ts : List (Thread M O)}
        → Busy handle m v' rs ts d
        → BusyTurn m v rs d (ts, writer, v')
    freed :
        {d' : List (R × O)} {ts : List (Thread M O)}
        → Grows handle m v d d'
        → Calm handle v 0 rs ts d'
        → BusyTurn m v rs d (ts, readers 0, v)

  cons_waits-BusyTurn :
      (m v : M) {rs : List R} {d : List (R × O)} {r : R} {a : Access} {t : Thread M O}
      (q : Pool M O)
      → Section a t
      → ((u : M) → alone t u ≡ handle r u)
      → BusyTurn m v rs d q
      → BusyTurn m v (r ∷ rs) d (enter a t ∷ q.0, q.1, q.2)
  cons_waits-BusyTurn m v q s e (busy next) = busy (waits s e next)
  cons_waits-BusyTurn m v q s e (freed g next) = freed g (waits s e next)

  cons_done-BusyTurn :
      (m v : M) {rs : List R} {d : List (R × O)} {r : R} {o : O} (q : Pool M O)
      → BusyTurn m v rs d q
      → BusyTurn m v (r ∷ rs) ((r, o) ∷ d) (yields o ∷ q.0, q.1, q.2)
  cons_done-BusyTurn m v q (busy next) = busy (done next)
  cons_done-BusyTurn m v q (freed g next) = freed (Grows-cons handle m v _ _ _ g) (done next)

  -- While one writes, those that wait keep waiting.
  turn_at-Calm :
      (m v : M) (i : ℕ) {rs : List R} {ts : List (Thread M O)} {d : List (R × O)}
      → Calm handle m 0 rs ts d
      → turn_at i ts writer v ≡ (ts, writer, v)
  unfolding turn_at turn
  turn_at-Calm m v i nobody = refl
  turn_at-Calm m v zero (waits {a = exclusive} s e c) = refl
  turn_at-Calm m v zero (waits {a = shared} s e c) = refl
  turn_at-Calm m v zero (done c) = refl
  turn_at-Calm m v (suc i) (waits {a = a} {t = t} s e c) =
      ap (λ (x : Pool M O). (enter a t ∷ x.0, x.1, x.2)) (turn_at-Calm m v i c)
  turn_at-Calm m v (suc i) (done {o = o} c) =
      ap (λ (x : Pool M O). (yields o ∷ x.0, x.1, x.2)) (turn_at-Calm m v i c)

  -- The turn of the one that writes.
  writes-BusyTurn :
      (m v : M) {rs : List R} {ts : List (Thread M O)} {d : List (R × O)} {r : R} {t : Thread M O}
      → Section exclusive t
      → alone t v ≡ handle r m
      → Calm handle m 0 rs ts d
      → (let (t', h', v') = turn t writer v in BusyTurn m v (r ∷ rs) d (t' ∷ ts, h', v'))
  unfolding turn alone
  writes-BusyTurn m v leaves e c = freed (more (sym e) (Perm.refl _)) (done (Calm-any handle v c))
  writes-BusyTurn m v (looks f) e c = busy (writes (f v) e c)
  writes-BusyTurn m v (changes s) e c = busy (writes s e c)

  -- Any turn while one writes.
  pub turn_at-BusyTurn :
      (m v : M) (i : ℕ) {rs : List R} {ts : List (Thread M O)} {d : List (R × O)}
      → Busy handle m v rs ts d
      → BusyTurn m v rs d (turn_at i ts writer v)
  unfolding turn_at turn
  turn_at-BusyTurn m v zero (writes s e c) = writes-BusyTurn m v s e c
  turn_at-BusyTurn m v (suc i) (writes s e c) = rw (turn_at-Calm m v i c) (busy (writes s e c))
  turn_at-BusyTurn m v zero (waits {a = exclusive} s e b) = busy (waits s e b)
  turn_at-BusyTurn m v zero (waits {a = shared} s e b) = busy (waits s e b)
  turn_at-BusyTurn m v zero (done b) = busy (done b)
  turn_at-BusyTurn m v (suc i) (waits s e b) =
      cons_waits-BusyTurn m v _ s e (turn_at-BusyTurn m v i b)
  turn_at-BusyTurn m v (suc i) (done b) = cons_done-BusyTurn m v _ (turn_at-BusyTurn m v i b)
