-- ===== src/Pulumi/Client/Calls/Forward.antt =====
-- The clock of the client does not run back, one rule for each way to build a computation.
use nobus_csi.Common.{ℕ, zero, suc, ◌+◌, ◌*◌, ◌≤◌, arith, Option-cases, inl, inr}
use nobus_csi.Cloud.Errors.{Error, Result, ok, err}
use nobus_csi.Cloud.Interface.{Run}
use nobus_csi.Cloud.Run.{return, raise, lift, attempt, after, ◌>>=◌}
use nobus_csi.Pulumi.Client.Calls.{
  Transport, HttpRequest, Session, Context, pause, after_attempt, attempts, do_once, do_request,
}

module _ {T : Transport} where
  pub record Forward {A : Type 0} (m : Run (Session T) A) : Type 0 where
    pub at : (s : Session T) → s.elapsed ≤ (m s).1.elapsed

  module _ {A : Type 0} where
    pub Forward-return : (a : A) → Forward (return a)
    unfolding return
    Forward-return a = record { at = λ s. omega arith }

    pub Forward-raise : (e : Error) → Forward (raise {A = A} e)
    unfolding raise
    Forward-raise e = record { at = λ s. omega arith }

    pub Forward-lift : (r : Result A) → Forward (lift r)
    unfolding lift
    Forward-lift r = record { at = λ s. omega arith }

  pub Forward-pause : (ctx : Context) (delay : ℕ) → Forward (pause T ctx delay)
  unfolding pause
  Forward-pause ctx delay = record {
    at = λ s. elim (Option-cases (ctx (s.elapsed + delay))) [
      | inl e ↦ rw e (omega arith)
      | inr (c, e) ↦ rw e (omega arith)
    ];
  }

  module _ {A B : Type 0} where
    after-Forward :
        (r : Result A) (s t : Session T) (f : A → Run (Session T) B)
        → s.elapsed ≤ t.elapsed
        → ((a : A) → Forward (f a))
        → s.elapsed ≤ (after (r, t) f).1.elapsed
    after-Forward (ok a) s t f h g = omega (arith, (g a).at t)
    after-Forward (err e) s t f h g = h

    pub Forward-bind :
        (m : Run (Session T) A) (f : A → Run (Session T) B)
        → Forward m
        → ((a : A) → Forward (f a))
        → Forward (m >>= f)
    unfolding ◌>>=◌
    Forward-bind m f h g = record { at = λ s. after-Forward (m s).0 s (m s).1 f (h.at s) g }

  module _ {A : Type 0} (ctx : Context) (request : HttpRequest) (decode : T.Body → Result A) where
    Forward-after_attempt :
        (number : ℕ) (again : Run (Session T) A) (r : Result A)
        → Forward again
        → Forward (after_attempt T ctx request decode number again r)
    unfolding after_attempt return raise
    Forward-after_attempt number again (ok a) h = record { at = λ s. omega arith }
    Forward-after_attempt number again (err e) h = record {
      at = λ s. ground (
        arith,
        (Forward-bind (pause T ctx (number * number * 200)) (λ _. again)
              (Forward-pause ctx (number * number * 200)) (λ _. h)).at
            s,
      );
    }

    Forward-do_once : Forward (do_once T request decode)
    unfolding do_once
    Forward-do_once = record { at = λ s. omega arith }

    Forward-attempt : (m : Run (Session T) A) → Forward m → Forward (attempt m)
    unfolding attempt
    Forward-attempt m h = record { at = λ s. h.at s }

    Forward-attempts : (more number : ℕ) → Forward (attempts T ctx request decode more number)
    unfolding attempts
    Forward-attempts zero number = Forward-do_once
    Forward-attempts (suc more) number =
        Forward-bind _ _ (Forward-attempt _ Forward-do_once)
          (λ r. Forward-after_attempt number _ r (Forward-attempts more (suc number)))

    pub Forward-do_request : Forward (do_request T ctx request decode)
    unfolding do_request
    Forward-do_request = Forward-attempts 3 1

pub ruleset forward_rules =
    (Forward-return, Forward-raise, Forward-lift, Forward-bind, Forward-do_request)
