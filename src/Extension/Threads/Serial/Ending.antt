-- ===== src/Extension/Threads/Serial/Ending.antt =====
-- Schedules for the goroutines of Serial that lead to the end of all of them.
use mindorr.Prelude.{ℕ, zero, suc, List, [], ◌∷◌, ◌++◌, ◌≡◌, refl, ap, subst, map, ◌∙◌, all, true}
use mindorr.Extension.Threads.Locking.{
  Access, exclusive, shared, Thread, yields, enter, Held, readers, writer, turn, Pool, turn_at,
  run_schedule, is_done,
}
use mindorr.Extension.Threads.Serial.{
  Section, leaves, looks, changes, Calm, nobody, waits, reads, done, Busy, writes,
}

-- So many beside `b` others.
abbrev beside : ℕ → ℕ → ℕ
beside zero b = b
beside (suc n) b = suc (beside n b)

beside_none : (n : ℕ) → beside n 0 ≡ n
beside_none zero = refl
beside_none (suc n) = ap suc (beside_none n)

module _ {M O : Type 0} where
  pub run_schedule-append :
      (a b : List ℕ) (pool : Pool M O)
      → run_schedule (a ++ b) pool ≡ run_schedule b (run_schedule a pool)
  unfolding run_schedule
  run_schedule-append [] b pool = refl
  run_schedule-append (i ∷ a) b (ts, h, m) = run_schedule-append a b (turn_at i ts h m)

  -- A schedule that leads from one state to another.
  pub data Leads (p q : Pool M O) : Type 0 where
    leads : (schedule : List ℕ) → run_schedule schedule p ≡ q → Leads p q

  Leads-refl : {p : Pool M O} → Leads p p
  unfolding run_schedule
  Leads-refl = leads [] refl

  pub Leads-trans : {p q r : Pool M O} → Leads p q → Leads q r → Leads p r
  Leads-trans {p} (leads a e) (leads b f) =
      leads (a ++ b) (run_schedule-append a b p ∙ ap (run_schedule b) e ∙ f)

  -- One turn of the first.
  first-Leads :
      (t : Thread M O) (ts : List (Thread M O)) (h : Held) (m : M) {q : Pool M O}
      → Leads (turn_at 0 (t ∷ ts) h m) q
      → Leads (t ∷ ts, h, m) q
  unfolding run_schedule
  first-Leads t ts h m (leads a e) = leads (0 ∷ a) e

  abbrev behind : Thread M O → Pool M O → Pool M O
  behind t (ts, h, m) = (t ∷ ts, h, m)

  run_schedule-behind :
      (t : Thread M O) (a : List ℕ) (p : Pool M O)
      → run_schedule (map suc a) (behind t p) ≡ behind t (run_schedule a p)
  unfolding run_schedule turn_at
  run_schedule-behind t [] p = refl
  run_schedule-behind t (i ∷ a) (ts, h, m) = run_schedule-behind t a (turn_at i ts h m)

  -- Turns of those behind the first.
  behind-Leads : (t : Thread M O) {p q : Pool M O} → Leads p q → Leads (behind t p) (behind t q)
  behind-Leads t {p} (leads a e) = leads (map suc a) (run_schedule-behind t a p ∙ ap (behind t) e)

  -- The first, in its critical section, goes through it.
  writes-Leads :
      (t : Thread M O) (ts : List (Thread M O)) (m : M)
      → Section exclusive t
      → (o : O) × (v : M) × Leads (t ∷ ts, writer, m) (yields o ∷ ts, readers 0, v)
  unfolding turn_at turn
  writes-Leads _ ts m (leaves {o = o}) = (o, m, first-Leads _ ts writer m Leads-refl)
  writes-Leads _ ts m (looks {f = f} s) =
      let (o, v, l) = writes-Leads (f m) ts m (s m) in (o, v, first-Leads _ ts writer m l)
  writes-Leads _ ts m (changes {g = g} {t = t} s) =
      let (o, v, l) = writes-Leads t ts (g m) s in (o, v, first-Leads _ ts writer m l)

  reads-Leads :
      (t : Thread M O) (ts : List (Thread M O)) (k : ℕ) (m : M)
      → Section shared t
      → (o : O) × Leads (t ∷ ts, readers (suc k), m) (yields o ∷ ts, readers k, m)
  unfolding turn_at turn
  reads-Leads _ ts k m (leaves {o = o}) = (o, first-Leads _ ts (readers (suc k)) m Leads-refl)
  reads-Leads _ ts k m (looks {f = f} s) =
      let (o, l) = reads-Leads (f m) ts k m (s m) in (o, first-Leads _ ts (readers (suc k)) m l)

  -- Goroutines outside of their critical sections.
  pub data Free : List (Thread M O) → Type 0 where
    empty : Free []
    idle :
        {a : Access} {t : Thread M O} {ts : List (Thread M O)}
        → Section a t
        → Free ts
        → Free (enter a t ∷ ts)
    over : {o : O} {ts : List (Thread M O)} → Free ts → Free (yields o ∷ ts)

  abbrev pub Ends : Pool M O → Type 0
  Ends p = (q : Pool M O) × Leads p q × (all is_done q.0 ≡ true)

  -- The first is done, and the others can go on.
  cons-Ends :
      (t : Thread M O) (o : O) (ts : List (Thread M O)) (h : Held) (m v : M)
      → Leads (t ∷ ts, h, m) (yields o ∷ ts, readers 0, v)
      → Ends (ts, readers 0, v)
      → Ends (t ∷ ts, h, m)
  cons-Ends t o ts h m v l (q, l', d) =
      (behind (yields o) q, Leads-trans l (behind-Leads (yields o) l'), d)

  Free-Ends : {ts : List (Thread M O)} (m : M) → Free ts → Ends (ts, readers 0, m)
  unfolding turn_at turn
  Free-Ends m empty = (([], readers 0, m), Leads-refl, refl)
  Free-Ends m (idle {a = exclusive} {t = t} {ts = ts} s f) =
      let (o, v, l) = writes-Leads t ts m s in
      cons-Ends (enter exclusive t) o ts (readers 0) m v (first-Leads _ ts (readers 0) m l)
        (Free-Ends v f)
  Free-Ends m (idle {a = shared} {t = t} {ts = ts} s f) =
      let (o, l) = reads-Leads t ts 0 m s in
      cons-Ends (enter shared t) o ts (readers 0) m m (first-Leads _ ts (readers 0) m l)
        (Free-Ends m f)
  Free-Ends m (over {o = o} {ts = ts} f) =
      cons-Ends (yields o) o ts (readers 0) m m Leads-refl (Free-Ends m f)

module _ {R M O : Type 0} (handle : R → M → O × M) where
  Calm-Free :
      {m : M} {rs : List R} {ts : List (Thread M O)} {d : List (R × O)}
      → Calm handle m 0 rs ts d
      → Free ts
  Calm-Free nobody = empty
  Calm-Free (waits s e c) = idle s (Calm-Free c)
  Calm-Free (done c) = over (Calm-Free c)

  -- Readers leave, beside `b` others.
  abbrev Drains : ℕ → Pool M O → M → Type 0
  Drains b p m = (ts : List (Thread M O)) × Free ts × Leads p (ts, readers b, m)

  Calm-Drains :
      (m : M) (b : ℕ) {n : ℕ} {rs : List R} {ts : List (Thread M O)} {d : List (R × O)}
      → Calm handle m n rs ts d
      → Drains b (ts, readers (beside n b), m) m
  Calm-Drains m b nobody = ([], empty, Leads-refl)
  Calm-Drains m b (waits {a = a} {t = t} s e c) =
      let (ts', f, l) = Calm-Drains m b c in (enter a t ∷ ts', idle s f, behind-Leads (enter a t) l)
  Calm-Drains m b (reads {n = n} {ts = ts} {t = t} s e c) =
      let (ts', f, l) = Calm-Drains m b c in
      let (o, l') = reads-Leads t ts (beside n b) m s in
      (yields o ∷ ts', over f, Leads-trans l' (behind-Leads (yields o) l))
  Calm-Drains m b (done {o = o} c) =
      let (ts', f, l) = Calm-Drains m b c in (yields o ∷ ts', over f, behind-Leads (yields o) l)

  -- The writer leaves.
  Busy-Drains :
      {m v : M} {rs : List R} {ts : List (Thread M O)} {d : List (R × O)}
      → Busy handle m v rs ts d
      → (v' : M) × Drains 0 (ts, writer, v) v'
  Busy-Drains {v = v} (writes {ts = ts} {t = t} s e c) =
      let (o, v', l) = writes-Leads t ts v s in (v', (yields o ∷ ts, over (Calm-Free c), l))
  Busy-Drains (waits {a = a} {t = t} s e b) =
      let (v', (ts', f, l)) = Busy-Drains b in
      (v', (enter a t ∷ ts', idle s f, behind-Leads (enter a t) l))
  Busy-Drains (done {o = o} b) =
      let (v', (ts', f, l)) = Busy-Drains b in
      (v', (yields o ∷ ts', over f, behind-Leads (yields o) l))

  Drains-Ends : {p : Pool M O} (v : M) → Drains 0 p v → Ends p
  Drains-Ends v (ts, f, l) = let (q, l', d) = Free-Ends v f in (q, Leads-trans l l', d)

  pub Calm-Ends :
      (m : M) {k : ℕ} {rs : List R} {ts : List (Thread M O)} {d : List (R × O)}
      → Calm handle m k rs ts d
      → Ends (ts, readers k, m)
  Calm-Ends m {k} {ts = ts} c =
      Drains-Ends m (subst (λ n. Drains 0 (ts, readers n, m) m) (beside_none k) (Calm-Drains m 0 c))

  pub Busy-Ends :
      {m v : M} {rs : List R} {ts : List (Thread M O)} {d : List (R × O)}
      → Busy handle m v rs ts d
      → Ends (ts, writer, v)
  Busy-Ends b = let (v', drained) = Busy-Drains b in Drains-Ends v' drained
