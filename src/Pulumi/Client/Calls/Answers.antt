-- ===== src/Pulumi/Client/Calls/Answers.antt =====
-- What a call answers where it answers, one rule for each way to build a computation.
use nobus_csi.Cloud.Errors.{Result, ok, err}
use nobus_csi.Cloud.Interface.{Run}
use nobus_csi.Cloud.Run.{return, lift, after, ◌>>=◌}

module _ {A : Type 0} where
  -- Nothing is said of an error.
  abbrev pub Given : (A → Type 0) → Result A → Type 0
  Given P (ok a) = P a
  Given P (err e) = Unit

  every : (r : Result A) → Given (λ _. Unit) r
  every (ok a) = tt
  every (err e) = tt

module _ {S A : Type 0} where
  pub record Answers (P : A → Type 0) (m : Run S A) : Type 0 where
    pub at : (s : S) → Given P (m s).0

  pub Answers-return : (P : A → Type 0) (a : A) → P a → Answers P (return a)
  unfolding return
  Answers-return P a h = record { at = λ s. h }

  pub Answers-lift : (P : A → Type 0) (r : Result A) → Given P r → Answers P (lift r)
  unfolding lift
  Answers-lift P r h = record { at = λ s. h }

  pub Answers-every : (m : Run S A) → Answers (λ _. Unit) m
  unfolding every
  Answers-every m = record { at = λ s. every (m s).0 }

module _ {S A B : Type 0} where
  after-Answers :
      (P : A → Type 0) (Q : B → Type 0) (f : A → Run S B) (r : Result A) (s : S)
      → Given P r
      → ((a : A) → P a → Answers Q (f a))
      → Given Q (after (r, s) f).0
  after-Answers P Q f (ok a) s p h = (h a p).at s
  after-Answers P Q f (err e) s p h = tt

  pub Answers-bind :
      (P : A → Type 0) (Q : B → Type 0) (m : Run S A) (f : A → Run S B)
      → Answers P m
      → ((a : A) → P a → Answers Q (f a))
      → Answers Q (m >>= f)
  unfolding ◌>>=◌
  Answers-bind P Q m f p h = record { at = λ s. after-Answers P Q f (m s).0 (m s).1 (p.at s) h }
