-- ===== src/Driver/Session/Keeps.antt =====
-- Locks are given back: a handler leaves both tables as it found them.
use nobus_csi.Common.{
  ◌≡◌, refl, ◌∙◌, Bool, true, false, String, Option-cases, inl, inr, if◌then◌else◌,
}
use nobus_csi.Cloud.Errors.{Error, Result, ok, err}
use nobus_csi.Cloud.Interface.{Run, Cloud}
use nobus_csi.Driver.Locks.{try_lock}
use nobus_csi.Driver.Locks.Laws.{unlock-try_lock}
use nobus_csi.Driver.Session.{
  Session, Driver, with_volume, with_name, without_lock, raise, return, lift, after, ◌>>=◌,
}

module _ {C : Cloud} where
  pub record KeepsLocks {A : Type 0} (m : Run (Driver C) A) : Type 0 where
    pub at : (d : Driver C) → ((m d).1.locks ≡ d.locks) × ((m d).1.names ≡ d.names)

  module _ {A : Type 0} where
    pub with_volume-KeepsLocks :
        (id : String) (body : Run (Session C) A) → KeepsLocks (with_volume id body)
    unfolding with_volume
    with_volume-KeepsLocks id body = record {
      at = λ d. elim (Option-cases (try_lock id d.locks)) [
        | inl held ↦ rw held (refl, refl)
        | inr (l, taken) ↦ rw taken (unlock-try_lock id d.locks l taken, refl)
      ];
    }

    pub with_name-KeepsLocks :
        (name message : String) (body : Run (Session C) A)
        → KeepsLocks (with_name name message body)
    unfolding with_name
    with_name-KeepsLocks name message body = record {
      at = λ d. elim (Option-cases (try_lock name d.names)) [
        | inl held ↦ rw held (refl, refl)
        | inr (l, taken) ↦ rw taken (refl, unlock-try_lock name d.names l taken)
      ];
    }

    pub without_lock-KeepsLocks : (body : Run (Session C) A) → KeepsLocks (without_lock body)
    unfolding without_lock
    without_lock-KeepsLocks body = record { at = λ d. (refl, refl) }

    pub raise-KeepsLocks : (e : Error) → KeepsLocks (raise {A = A} e)
    unfolding raise
    raise-KeepsLocks e = record { at = λ d. (refl, refl) }

    pub lift-KeepsLocks : (r : Result A) → KeepsLocks (lift r)
    unfolding lift
    lift-KeepsLocks r = record { at = λ d. (refl, refl) }

    pub if-KeepsLocks :
        (b : Bool) (m n : Run (Driver C) A)
        → KeepsLocks m
        → KeepsLocks n
        → KeepsLocks (if b then m else n)
    if-KeepsLocks true m n km kn = km
    if-KeepsLocks false m n km kn = kn

    pub return-KeepsLocks : (a : A) → KeepsLocks (return a)
    unfolding return
    return-KeepsLocks a = record { at = λ d. (refl, refl) }

  module _ {A B : Type 0} where
    after-KeepsLocks :
        (r : Result A) (d e : Driver C) (f : A → Run (Driver C) B)
        → ((d.locks ≡ e.locks) × (d.names ≡ e.names))
        → ((a : A) → KeepsLocks (f a))
        → ((after (r, d) f).1.locks ≡ e.locks) × ((after (r, d) f).1.names ≡ e.names)
    after-KeepsLocks (ok a) d e f h k = (((k a).at d).0 ∙ h.0, ((k a).at d).1 ∙ h.1)
    after-KeepsLocks (err x) d e f h k = h

    pub bind-KeepsLocks :
        (m : Run (Driver C) A) (f : A → Run (Driver C) B)
        → KeepsLocks m
        → ((a : A) → KeepsLocks (f a))
        → KeepsLocks (m >>= f)
    unfolding ◌>>=◌
    bind-KeepsLocks m f h k = record { at = λ d. after-KeepsLocks (m d).0 (m d).1 d f (h.at d) k }

pub ruleset keeps_locks = (
  with_volume-KeepsLocks, with_name-KeepsLocks, without_lock-KeepsLocks, raise-KeepsLocks,
  if-KeepsLocks, return-KeepsLocks, lift-KeepsLocks, bind-KeepsLocks,
)
