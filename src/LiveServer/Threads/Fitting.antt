-- ===== src/LiveServer/Threads/Fitting.antt =====
-- Threads that hold the mutex only while they send, that send only what they may, and that have a last
-- turn.
use mindorr.Prelude.{ℕ, suc, Bool, true, false, Result, String}
use mindorr.LiveServer.Proxy.{Instruction, HttpReply}
use mindorr.LiveServer.Requests.{Writer}
use mindorr.LiveServer.Threads.{Program, respond, acquire, release, send, fetch, wait}

-- What a thread may send, to which URL, and what it may respond.
pub record Duty : Type 1 where
  pub may_send : String → Instruction → Type 0
  pub may_say : Writer → Type 0

-- A thread that holds the mutex or does not, with a bound on its turns: with the mutex it sends and
-- releases, without it it fetches, waits and responds.
pub data Fits (A : Duty) : Bool → ℕ → Program → Type 0 where
  responds : {n : ℕ} {w : Writer} → A.may_say w → Fits A false n (respond w)
  acquires : {n : ℕ} {t : Program} → Fits A true n t → Fits A false (suc n) (acquire t)
  releases : {n : ℕ} {t : Program} → Fits A false n t → Fits A true (suc n) (release t)
  sends :
      {n : ℕ} {url : String} {i : Instruction} {next : Result HttpReply → Program}
      → A.may_send url i
      → ((r : Result HttpReply) → Fits A true n (next r))
      → Fits A true (suc n) (send url i next)
  fetches :
      {n : ℕ} {url : String} {next : Result HttpReply → Program}
      → ((r : Result HttpReply) → Fits A false n (next r))
      → Fits A false (suc n) (fetch url next)
  waits : {n : ℕ} {t : Program} → Fits A false n t → Fits A false (suc n) (wait t)

-- A thread that may send more still fits.
pub Fits-more :
    (A B : Duty) (c : Bool) (n : ℕ) (t : Program)
    → ((url : String) (i : Instruction) → A.may_send url i → B.may_send url i)
    → ((w : Writer) → A.may_say w → B.may_say w)
    → Fits A c n t
    → Fits B c n t
Fits-more A B c n t h k (responds a) = responds (k _ a)
Fits-more A B c n t h k (acquires f) = acquires (Fits-more A B _ _ _ h k f)
Fits-more A B c n t h k (releases f) = releases (Fits-more A B _ _ _ h k f)
Fits-more A B c n t h k (sends a f) = sends (h _ _ a) (λ r. Fits-more A B _ _ _ h k (f r))
Fits-more A B c n t h k (fetches f) = fetches (λ r. Fits-more A B _ _ _ h k (f r))
Fits-more A B c n t h k (waits f) = waits (Fits-more A B _ _ _ h k f)
