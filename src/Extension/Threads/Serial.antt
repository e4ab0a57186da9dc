-- ===== src/Extension/Threads/Serial.antt =====
-- Goroutines with at most one critical section each, between two turns: who waits, reads, writes, or
-- is done. For the handlers of extension/go/internal/extension/extension.go.
pub mod Turning
pub mod Ordered
pub mod Ending
use mindorr.Prelude.{ℕ, zero, suc, ◌+◌, ◌≤◌, List, [], ◌∷◌, ◌≡◌, refl, arith, Bool, true, false}
use mathlib.Core.List.{Perm}
use mathlib.Core.List.Perm
use mindorr.Extension.Threads.Locking.{
  Access, exclusive, shared, Thread, yields, enter, leave, look, assign, Held, readers, writer,
  turn, turn_at, run_schedule, alone,
}

module _ {M O : Type 0} where
  -- What is left of a critical section: reads, and writes if it is exclusive, then the end.
  pub data Section : Access → Thread M O → Type 0 where
    leaves : {a : Access} {o : O} → Section a (leave a (yields o))
    looks : {a : Access} {f : M → Thread M O} → ((m : M) → Section a (f m)) → Section a (look f)
    changes : {g : M → M} {t : Thread M O} → Section exclusive t → Section exclusive (assign g t)

  -- A goroutine that ends at once, or behind one critical section.
  pub data IsBracketed : Thread M O → Type 0 where
    ends : {o : O} → IsBracketed (yields o)
    enters : {a : Access} {t : Thread M O} → Section a t → IsBracketed (enter a t)

module _ {R M O : Type 0} (handle : R → M → O × M) where
  -- Requests with their outcomes, the last in front, handled one after the other from one memory to
  -- another.
  pub data Serves (m : M) : List (R × O) → M → Type 0 where
    nothing : Serves m [] m
    later :
        {log : List (R × O)} {m1 m2 : M} {r : R} {o : O}
        → Serves m log m1
        → handle r m1 ≡ (o, m2)
        → Serves m ((r, o) ∷ log) m2

  -- Goroutines of some requests while no one writes: how many read, and the outcomes of those that are
  -- done.
  pub data Calm (m : M) : ℕ → List R → List (Thread M O) → List (R × O) → Type 0 where
    nobody : Calm m 0 [] [] []
    waits :
        {n : ℕ} {rs : List R} {ts : List (Thread M O)} {d : List (R × O)} {r : R} {a : Access}
        {t : Thread M O}
        → Section a t
        → ((v : M) → alone t v ≡ handle r v)
        → Calm m n rs ts d
        → Calm m n (r ∷ rs) (enter a t ∷ ts) d
    reads :
        {n : ℕ} {rs : List R} {ts : List (Thread M O)} {d : List (R × O)} {r : R} {t : Thread M O}
        → Section shared t
        → alone t m ≡ handle r m
        → Calm m n rs ts d
        → Calm m (suc n) (r ∷ rs) (t ∷ ts) d
    done :
        {n : ℕ} {rs : List R} {ts : List (Thread M O)} {d : List (R × O)} {r : R} {o : O}
        → Calm m n rs ts d
        → Calm m n (r ∷ rs) (yields o ∷ ts) ((r, o) ∷ d)

  -- Goroutines one of which writes: `m` is the memory that it found, `v` what it has made of it.
  pub data Busy (m v : M) : List R → List (Thread M O) → List (R × O) → Type 0 where
    writes :
        {rs : List R} {ts : List (Thread M O)} {d : List (R × O)} {r : R} {t : Thread M O}
        → Section exclusive t
        → alone t v ≡ handle r m
        → Calm m 0 rs ts d
        → Busy m v (r ∷ rs) (t ∷ ts) d
    waits :
        {rs : List R} {ts : List (Thread M O)} {d : List (R × O)} {r : R} {a : Access}
        {t : Thread M O}
        → Section a t
        → ((v : M) → alone t v ≡ handle r v)
        → Busy m v rs ts d
        → Busy m v (r ∷ rs) (enter a t ∷ ts) d
    done :
        {rs : List R} {ts : List (Thread M O)} {d : List (R × O)} {r : R} {o : O}
        → Busy m v rs ts d
        → Busy m v (r ∷ rs) (yields o ∷ ts) ((r, o) ∷ d)

  -- Where nobody reads, the memory does not matter.
  pub Calm-any :
      {m : M} (v : M) {rs : List R} {ts : List (Thread M O)} {d : List (R × O)}
      → Calm m 0 rs ts d
      → Calm v 0 rs ts d
  Calm-any v nobody = nobody
  Calm-any v (waits s e c) = waits s e (Calm-any v c)
  Calm-any v (done c) = done (Calm-any v c)

  -- The outcomes that are there stay, and a request that is done behind memory `m` may be added.
  pub data Grows (m v : M) (d : List (R × O)) : List (R × O) → Type 0 where
    same : m ≡ v → Grows m v d d
    more :
        {d' : List (R × O)} {r : R} {o : O}
        → handle r m ≡ (o, v)
        → Perm d' ((r, o) ∷ d)
        → Grows m v d d'

  pub Grows-cons :
      (m v : M) (x : R × O) (d d' : List (R × O)) → Grows m v d d' → Grows m v (x ∷ d) (x ∷ d')
  Grows-cons m v x d d' (same e) = same e
  Grows-cons m v x d d' (more h p) = more h (Perm.trans (Perm.cons x p) (Perm.swap _ _ _))
