-- ===== src/Pulumi/Client/Waits/Success.antt =====
-- What a wait answers is what its last poll answered.
use nobus_csi.Common.{ℕ, zero, suc, Option, none, some}
use nobus_csi.Cloud.Interface.{Run}
use nobus_csi.Cloud.Run.{raise, return}
use nobus_csi.Pulumi.Client.Calls.{Transport, Session, Context, pause}
use nobus_csi.Pulumi.Client.Calls.Answers.{Answers, Answers-bind, Answers-every}
use nobus_csi.Pulumi.Client.Waits.{after_poll, poll_until, wait_until}

module _ {A : Type 0} (P : A → Type 0) where
  -- What a poll that is done has found.
  abbrev pub Found : Option A → Type 0
  Found none = Unit
  Found (some a) = P a

module _ (T : Transport) (poll : ℕ) {A : Type 0} (P : A → Type 0)
    (fn : Context → Run (Session T) (Option A)) where
  after_poll-Answers :
      (again : Run (Session T) A) (o : Option A)
      → Found P o
      → Answers P again
      → Answers P (after_poll T poll again o)
  unfolding after_poll return
  after_poll-Answers again (some a) f h = record { at = λ s. f }
  after_poll-Answers again none f h = record { at = λ s. h.at s }

  poll_until-Answers :
      (ctx : Context) (more : ℕ)
      → ((c : Context) → Answers (Found P) (fn c))
      → Answers P (poll_until T poll ctx more fn)
  unfolding poll_until raise
  poll_until-Answers ctx zero h = record { at = λ s. tt }
  poll_until-Answers ctx (suc more) h = Answers-bind (Found P) P (fn ctx) _ (h ctx) (λ o f.
      after_poll-Answers _ o f (
        Answers-bind (λ _. Unit) P (pause T ctx poll) (λ _. poll_until T poll ctx more fn)
          (Answers-every _) (λ _ _. poll_until-Answers ctx more h)))

  pub wait_until-Answers :
      (ctx : Context) (limit : ℕ)
      → ((c : Context) → Answers (Found P) (fn c))
      → Answers P (wait_until T poll ctx limit fn)
  unfolding wait_until
  wait_until-Answers ctx limit h = record { at = λ s. (poll_until-Answers _ _ h).at s }
