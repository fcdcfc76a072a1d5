-- ===== src/Driver/Session/Elapsed.antt =====
-- How long a computation waits, in milliseconds, one rule for each way to build a computation.
use nobus_csi.Common.{ℕ, ◌+◌, ◌≤◌, Bool, true, false, Bool-cases, inl, inr, arith, if◌then◌else◌}
use nobus_csi.Cloud.Errors.{Error, Result, ok, err}
use nobus_csi.Cloud.Interface.{Run, Cloud}
use nobus_csi.Driver.Session.{
  Session, return, raise, lift, attempt, fail_as, call, ◌>>=◌, after, with_error, wait,
}

module _ {C : Cloud} where
  -- From every state, at most so many milliseconds.
  pub record Waits {A : Type 0} (n : ℕ) (m : Run (Session C) A) : Type 0 where
    pub at : (s : Session C) → (m s).1.elapsed ≤ s.elapsed + n

  module _ {A : Type 0} where
    pub Waits-return : {n : ℕ} → (a : A) → Waits n (return a)
    unfolding return
    Waits-return a = record { at = λ s. omega arith }

    pub Waits-raise : {n : ℕ} → (e : Error) → Waits n (raise {A = A} e)
    unfolding raise
    Waits-raise e = record { at = λ s. omega arith }

    pub Waits-lift : {n : ℕ} → (r : Result A) → Waits n (lift r)
    unfolding lift
    Waits-lift r = record { at = λ s. omega arith }

    pub Waits-call : {n : ℕ} → (m : Run C.State A) → Waits n (call {C = C} m)
    unfolding call
    Waits-call m = record { at = λ s. omega arith }

    pub Waits-attempt : {n : ℕ} → (m : Run (Session C) A) → Waits n m → Waits n (attempt m)
    unfolding attempt
    Waits-attempt m h = record { at = λ s. h.at s }

    pub Waits-if :
        {n : ℕ}
        → (b : Bool) (m k : Run (Session C) A) → Waits n m
        → Waits n k
        → Waits n (if b then m else k)
    Waits-if true m k hm hk = hm
    Waits-if false m k hm hk = hk

    failed-Waits :
        (n : ℕ) (f : Error → Error) (r : Result A) (s t : Session C)
        → t.elapsed ≤ s.elapsed + n
        → (with_error f (r, t)).1.elapsed ≤ s.elapsed + n
    failed-Waits n f (ok a) s t h = h
    failed-Waits n f (err e) s t h = h

    pub Waits-fail_as :
        {n : ℕ} → (f : Error → Error) (m : Run (Session C) A) → Waits n m → Waits n (fail_as f m)
    unfolding fail_as
    Waits-fail_as {n} f m h = record { at = λ s. failed-Waits n f (m s).0 s (m s).1 (h.at s) }

  module _ {A B : Type 0} where
    after-Waits :
        (k n : ℕ) (r : Result A) (s t : Session C) (f : A → Run (Session C) B)
        → t.elapsed ≤ s.elapsed + k
        → ((a : A) → Waits n (f a))
        → (after (r, t) f).1.elapsed ≤ s.elapsed + (k + n)
    after-Waits k n (ok a) s t f h g = omega (arith, (g a).at t)
    after-Waits k n (err e) s t f h g = omega arith

    pub Waits-bind_sum :
        (k n : ℕ) (m : Run (Session C) A) (f : A → Run (Session C) B)
        → Waits k m
        → ((a : A) → Waits n (f a))
        → Waits (k + n) (m >>= f)
    unfolding ◌>>=◌
    Waits-bind_sum k n m f h g = record { at = λ s. after-Waits k n (m s).0 s (m s).1 f (h.at s) g }

    -- The first part does not wait.
    pub Waits-bind :
        {n : ℕ}
        → (m : Run (Session C) A) (f : A → Run (Session C) B) → Waits 0 m
        → ((a : A) → Waits n (f a))
        → Waits n (m >>= f)
    unfolding ◌>>=◌
    Waits-bind {n} m f h g = record {
      at = λ s. omega (arith, after-Waits 0 n (m s).0 s (m s).1 f (h.at s) g);
    }

  pub Waits-wait : (ctx : ℕ → Bool) (delay : ℕ) → Waits delay (wait {C = C} ctx delay)
  unfolding wait
  Waits-wait ctx delay = record {
    at = λ s. elim (Bool-cases (ctx (s.elapsed + delay))) [
      | inl done ↦ rw done (omega arith)
      | inr due ↦ rw due (omega arith)
    ];
  }

pub ruleset waits_rules = (
  Waits-return, Waits-raise, Waits-lift, Waits-call, Waits-attempt, Waits-if, Waits-fail_as,
  Waits-bind,
)
