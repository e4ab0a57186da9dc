-- ===== src/Extension/Numbers.antt =====
-- The numbers of the greetings over a sequence of requests.
use mindorr.Prelude.{arith, zero, suc, ◌<◌, length, suc, ◌+◌, ◌≡◌, refl, ap, sym, subst}
use mindorr.Extension.{
  action_handler, goodbye, hello, Result, none, [], ◌∷◌, some, handle_all, ℕ, List, Option, Answer,
}
use mindorr.Extension.Types.{Action, Response, Extension, Codec, new, increment, int_mod}
use mindorr.Extension.Steps.{action_handler-Effect, response_of, Effect, nothing, greeted, parted}

abbrev pub hello_number : Option Response → Option ℕ
hello_number (some (hello greeting n)) = some n
hello_number (some (goodbye farewell n)) = none
hello_number none = none

abbrev pub prepend : Option ℕ → List ℕ → List ℕ
prepend none ns = ns
prepend (some n) ns = n ∷ ns

-- The numbers in the hello responses of a list of answers, in their order.
abbrev pub hello_numbers : (c : Codec) → List (Answer c) → List ℕ
hello_numbers c [] = []
hello_numbers c (answer ∷ answers) =
    prepend (hello_number (response_of answer.1)) (hello_numbers c answers)

-- The `k` numbers that follow `n`.
abbrev pub following : ℕ → ℕ → List ℕ
following n zero = []
following n (suc k) = suc n ∷ following (suc n) k

-- The count `n` and the hello number `r` of one answer give the count `n'`.
pub data Counted (n n' : ℕ) (r : Option ℕ) : Type 0 where
  same : r ≡ none → n' ≡ n → Counted n n' r
  raised : r ≡ some (increment n) → n' ≡ increment n → Counted n n' r

pub hello_number-Counted :
    (c : Codec) (s : Extension) (answer : Answer c)
    → Effect c s answer
    → Counted s.greeting_count answer.2.greeting_count (hello_number (response_of answer.1))
hello_number-Counted c s answer (nothing h e) =
    same (ap hello_number h) (ap (λ x. x.greeting_count) e)
hello_number-Counted c s answer (greeted name _ h e) =
    raised (ap hello_number h) (ap (λ x. x.greeting_count) e)
hello_number-Counted c s answer (parted name reason _ h e) =
    same (ap hello_number h) (ap (λ x. x.greeting_count) e)

abbrev Follow : ℕ → List ℕ → ℕ → Type 0
Follow n ns m = n + length ns < int_mod → (ns ≡ following n (length ns)) × (m ≡ n + length ns)

increment_small : (n k : ℕ) → n + suc k < int_mod → increment n ≡ suc n
increment_small n k h = omega arith

prepend-Follow : (n m : ℕ) (ns : List ℕ) → Follow (suc n) ns m → Follow n (suc n ∷ ns) m
prepend-Follow n m ns ih h =
    let (e, e') = ih (omega (arith, h)) in (ap (λ l. suc n ∷ l) e, omega arith)

raised-Follow : (n m : ℕ) (ns : List ℕ) → Follow (increment n) ns m → Follow n (increment n ∷ ns) m
raised-Follow n m ns ih h =
    let e = increment_small n (length ns) h in
    subst (λ x. Follow n (x ∷ ns) m) (sym e)
      (prepend-Follow n m ns (subst (λ x. Follow x ns m) e ih)) h

answer-Follow :
    (n n' m : ℕ) (r : Option ℕ) (ns : List ℕ)
    → Counted n n' r
    → Follow n' ns m
    → Follow n (prepend r ns) m
answer-Follow n n' m r ns (same h e) ih =
    subst (λ x. Follow n (prepend x ns) m) (sym h) (subst (λ x. Follow x ns m) e ih)
answer-Follow n n' m r ns (raised h e) ih =
    subst (λ x. Follow n (prepend x ns) m) (sym h)
      (raised-Follow n m ns (subst (λ x. Follow x ns m) e ih))

handle_all-Follow :
    (c : Codec) (s : Extension) (rs : List (Result Action))
    → Follow s.greeting_count
        (hello_numbers c (handle_all c rs s).0)
        (handle_all c rs s).1.greeting_count
unfolding handle_all
handle_all-Follow c s [] h = (refl, omega arith)
handle_all-Follow c s (r ∷ rs) h =
    answer-Follow s.greeting_count _ _ _ _
      (hello_number-Counted c s _ (action_handler-Effect c s r))
      (handle_all-Follow c (action_handler c r s).2 rs) h

-- The greetings are numbered without a gap: while no more than `2 ^ 64 - 1` requests have been
-- greeted, the hello responses to any sequence of requests to a new server carry the numbers 1, 2,
-- 3 and so on in the order of their requests, whatever other requests are between them, and the
-- count that is left is the number of hello responses.
pub handle_all-hello_numbers :
    (c : Codec) (rs : List (Result Action))
    → length (hello_numbers c (handle_all c rs new).0) < int_mod
    → (hello_numbers c (handle_all c rs new).0
        ≡ following 0 (length (hello_numbers c (handle_all c rs new).0)))
      × ((handle_all c rs new).1.greeting_count ≡ length (hello_numbers c (handle_all c rs new).0))
handle_all-hello_numbers c rs h =
    let (e, e') = handle_all-Follow c new rs (omega arith) in (e, omega arith)
