-- ===== src/Driver/Session/Ensures.antt =====
-- What a computation returns and how it fails, one rule for each way to build a computation.
use nobus_csi.Common.{◌≡◌, refl, Bool, true, false, String, Option, none, some, if◌then◌else◌}
use nobus_csi.Cloud.Errors.{Code, Error, Result, ok, err}
use nobus_csi.Cloud.Interface.{Run, Cloud}
use nobus_csi.Driver.Status.{status}
use nobus_csi.Driver.Status.Laws.{Holds, Any}
use nobus_csi.Driver.Locks.{VolumeLocks, try_lock}
use nobus_csi.Driver.Session.{
  Session, Driver, return, raise, lift, attempt, fail_as, ◌>>=◌, with_volume, with_name, under_lock,
  under_name, without_lock, after, with_error,
}

module _ {A : Type 0} where
  -- Each value returned satisfies `P`, each error `Q`, from every state.
  pub record Ensures {S : Type 0} (P : A → Type 0) (Q : Error → Type 0) (m : Run S A) : Type 0 where
    pub at : (s : S) → Holds P Q (m s).0

module _ {S A : Type 0} {P : A → Type 0} {Q : Error → Type 0} where
  pub Ensures-return : (a : A) → P a → Ensures {S = S} P Q (return a)
  unfolding return
  Ensures-return a p = record { at = λ s. p }

  pub Ensures-raise : (e : Error) → Q e → Ensures {S = S} P Q (raise e)
  unfolding raise
  Ensures-raise e q = record { at = λ s. q }

  pub Ensures-lift : (r : Result A) → Holds P Q r → Ensures {S = S} P Q (lift r)
  unfolding lift
  Ensures-lift r h = record { at = λ s. h }

  pub Ensures-if :
      (b : Bool) (m n : Run S A)
      → (b ≡ true → Ensures P Q m)
      → (b ≡ false → Ensures P Q n)
      → Ensures P Q (if b then m else n)
  Ensures-if true m n km kn = km refl
  Ensures-if false m n km kn = kn refl

module _ {S A B : Type 0} {P : B → Type 0} {Q : Error → Type 0} where
  after-Holds :
      (r : Result A) (s : S) (f : A → Run S B)
      → Holds Any Q r
      → ((a : A) → Ensures P Q (f a))
      → Holds P Q (after (r, s) f).0
  after-Holds (ok a) s f h k = (k a).at s
  after-Holds (err e) s f h k = h

  pub Ensures-bind :
      (m : Run S A) (f : A → Run S B)
      → Ensures Any Q m
      → ((a : A) → Ensures P Q (f a))
      → Ensures P Q (m >>= f)
  unfolding ◌>>=◌
  Ensures-bind m f h k = record { at = λ s. after-Holds (m s).0 (m s).1 f (h.at s) k }

failed-Holds :
    {S A : Type 0} (Q : Error → Type 0) (f : Error → Error) (r : Result A) (s : S)
    → ((e : Error) → Q (f e))
    → Holds {A = A} Any Q (with_error f (r, s)).0
failed-Holds Q f (ok a) s h = tt
failed-Holds Q f (err e) s h = h e

module _ {S A B : Type 0} {R : A → Type 0} {P : B → Type 0} {Q : Error → Type 0} where
  after-Holds_strong :
      (r : Result A) (s : S) (f : A → Run S B)
      → Holds R Q r
      → ((a : A) → R a → Ensures P Q (f a))
      → Holds P Q (after (r, s) f).0
  after-Holds_strong (ok a) s f h k = (k a h).at s
  after-Holds_strong (err e) s f h k = h

  -- The rest may use what is known of the value.
  pub Ensures-bind_strong :
      (m : Run S A) (f : A → Run S B)
      → Ensures R Q m
      → ((a : A) → R a → Ensures P Q (f a))
      → Ensures P Q (m >>= f)
  unfolding ◌>>=◌
  Ensures-bind_strong m f h k = record { at = λ s. after-Holds_strong (m s).0 (m s).1 f (h.at s) k }

module _ {S A : Type 0} {Q : Error → Type 0} where
  pub Ensures-attempt : (m : Run S A) → Ensures Any Q (attempt m)
  unfolding attempt
  Ensures-attempt m = record { at = λ s. tt }

  pub Ensures-fail_as :
      (f : Error → Error) (m : Run S A) → ((e : Error) → Q (f e)) → Ensures Any Q (fail_as f m)
  unfolding fail_as
  Ensures-fail_as f m h = record { at = λ s. failed-Holds Q f (m s).0 (m s).1 h }

Holds-weaken :
    {A : Type 0} {R P : A → Type 0} (Q : Error → Type 0) (r : Result A)
    → ((a : A) → R a → P a)
    → Holds R Q r
    → Holds P Q r
Holds-weaken Q (ok a) f h = f a h
Holds-weaken Q (err e) f h = h

module _ {S A : Type 0} {R P : A → Type 0} {Q : Error → Type 0} where
  pub Ensures-weaken : (m : Run S A) → ((a : A) → R a → P a) → Ensures R Q m → Ensures P Q m
  Ensures-weaken m f h = record { at = λ s. Holds-weaken Q (m s).0 f (h.at s) }

module _ {C : Cloud} {A : Type 0} {P : A → Type 0} {Q : Error → Type 0} where
  pub Ensures-with_volume :
      (id : String) (body : Run (Session C) A)
      → ((m : String) → Q (status Code.aborted m))
      → Ensures P Q body
      → Ensures P Q (with_volume id body)
  unfolding with_volume
  Ensures-with_volume id body q h = record { at = λ d. go (try_lock id d.locks) d }
    where
      go :
          (l : Option VolumeLocks) (d : Driver C)
          → Holds P Q (under_lock l id "another operation is in flight for this volume" body d).0
      go none d = q _
      go (some l) d = h.at d.session

  pub Ensures-with_name :
      (name message : String) (body : Run (Session C) A)
      → ((m : String) → Q (status Code.aborted m))
      → Ensures P Q body
      → Ensures P Q (with_name name message body)
  unfolding with_name
  Ensures-with_name name message body q h = record { at = λ d. go (try_lock name d.names) d }
    where
      go : (l : Option VolumeLocks) (d : Driver C) → Holds P Q (under_name l name message body d).0
      go none d = q message
      go (some l) d = h.at d.session

  pub Ensures-without_lock :
      (body : Run (Session C) A) → Ensures P Q body → Ensures P Q (without_lock body)
  unfolding without_lock
  Ensures-without_lock body h = record { at = λ d. h.at d.session }

pub ruleset ensures_rules = (
  Ensures-return, Ensures-raise, Ensures-lift, Ensures-if, Ensures-bind, Ensures-attempt,
  Ensures-fail_as, Ensures-with_volume, Ensures-with_name, Ensures-without_lock,
)
