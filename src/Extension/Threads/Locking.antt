-- ===== src/Extension/Threads/Locking.antt =====
-- Goroutines that share memory under a `sync.RWMutex`, as programs that take turns.
use mindorr.Prelude.{ℕ, zero, suc, List, [], ◌∷◌, Bool, true, false}

-- `Lock` and `Unlock` are exclusive, `RLock` and `RUnlock` are shared.
pub data Access : Type 0 where
  exclusive shared : Access

-- A goroutine on a memory `M`: what it does next. It ends with an outcome, takes the mutex or gives it
-- back, reads a part of the memory, or writes a part.
pub data Thread (M O : Type 0) : Type 0 where
  yields : O → Thread M O
  enter : Access → Thread M O → Thread M O
  leave : Access → Thread M O → Thread M O
  look : (M → Thread M O) → Thread M O
  assign : (M → M) → Thread M O → Thread M O

-- Who holds the mutex: so many readers, or one writer.
pub data Held : Type 0 where
  readers : ℕ → Held
  writer : Held

-- Several goroutines, who holds the mutex, and the memory.
abbrev pub Pool : Type 0 → Type 0 → Type 0
Pool M O = List (Thread M O) × Held × M

module _ {M O : Type 0} where
  -- A turn of one goroutine. One that is done, or that waits for the mutex, stays as it is, and so does
  -- one that gives back what nobody holds.
  unfoldable pub turn : Thread M O → Held → M → Thread M O × Held × M
  turn (yields o) h m = (yields o, h, m)
  turn (enter exclusive t) (readers zero) m = (t, writer, m)
  turn (enter exclusive t) (readers (suc n)) m = (enter exclusive t, readers (suc n), m)
  turn (enter exclusive t) writer m = (enter exclusive t, writer, m)
  turn (enter shared t) (readers n) m = (t, readers (suc n), m)
  turn (enter shared t) writer m = (enter shared t, writer, m)
  turn (leave exclusive t) (readers n) m = (leave exclusive t, readers n, m)
  turn (leave exclusive t) writer m = (t, readers 0, m)
  turn (leave shared t) (readers zero) m = (leave shared t, readers 0, m)
  turn (leave shared t) (readers (suc n)) m = (t, readers n, m)
  turn (leave shared t) writer m = (leave shared t, writer, m)
  turn (look f) h m = (f m, h, m)
  turn (assign g t) h m = (t, h, g m)

  -- The turn of the goroutine with a number; a number of none is no turn.
  unfoldable pub turn_at : ℕ → List (Thread M O) → Held → M → Pool M O
  unfolding turn
  turn_at i [] h m = ([], h, m)
  turn_at zero (t ∷ ts) h m = let (t', h', m') = turn t h m in (t' ∷ ts, h', m')
  turn_at (suc i) (t ∷ ts) h m = let (ts', h', m') = turn_at i ts h m in (t ∷ ts', h', m')

  -- A schedule: whose turn it is, one after the other.
  unfoldable pub run_schedule : List ℕ → Pool M O → Pool M O
  unfolding turn_at
  run_schedule [] pool = pool
  run_schedule (i ∷ schedule) (ts, h, m) = run_schedule schedule (turn_at i ts h m)

  -- A goroutine that is alone: its outcome and the memory behind it.
  unfoldable pub alone : Thread M O → M → O × M
  alone (yields o) m = (o, m)
  alone (enter a t) m = alone t m
  alone (leave a t) m = alone t m
  alone (look f) m = alone (f m) m
  alone (assign g t) m = alone t (g m)

  abbrev pub is_done : Thread M O → Bool
  is_done (yields o) = true
  is_done (enter a t) = false
  is_done (leave a t) = false
  is_done (look f) = false
  is_done (assign g t) = false

  abbrev noted : {R : Type 0} → R → Thread M O → List (R × O) → List (R × O)
  noted r (yields o) d = (r, o) ∷ d
  noted r (enter a t) d = d
  noted r (leave a t) d = d
  noted r (look f) d = d
  noted r (assign g t) d = d

  -- The requests whose goroutines are done, with their outcomes.
  abbrev pub answered_so_far : {R : Type 0} → List R → List (Thread M O) → List (R × O)
  answered_so_far [] ts = []
  answered_so_far (r ∷ rs) [] = []
  answered_so_far (r ∷ rs) (t ∷ ts) = noted r t (answered_so_far rs ts)
