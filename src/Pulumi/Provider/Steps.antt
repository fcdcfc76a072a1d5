-- ===== src/Pulumi/Provider/Steps.antt =====
-- What an operation of a resource returns, and the steps it is made of.
use nobus_csi.Common.{Bool, true, false, String, List, [], ◌∷◌, Option, none, some, if◌then◌else◌}
use nobus_csi.Cloud.Errors.{Sentinel, Error, errors_is, Result, ok, err}
use nobus_csi.Cloud.Interface.{Run}

-- What `Create` returns: the identifier and the state, also beside an error.
pub record Created (State : Type 0) : Type 0 where
  pub id : String
  pub state : State
  pub failed : Option Error

-- What `Read` returns. An empty identifier says that the resource is gone.
pub record Reading (Args State : Type 0) : Type 0 where
  pub id : String
  pub args : Args
  pub state : State
  pub failed : Option Error

-- What `Update` returns.
pub record Updated (State : Type 0) : Type 0 where
  pub state : State
  pub failed : Option Error

module _ {S R : Type 0} where
  unfoldable pub finish : R → S → R × S
  finish r s = (r, s)

  module _ {A : Type 0} where
    abbrev pub returned : (Error → R) → (A → S → R × S) → Result A × S → R × S
    returned refuse next (ok a, s) = next a s
    returned refuse next (err e, s) = (refuse e, s)

    -- `if err != nil { return … }`, and what follows.
    unfoldable pub or_return : Run S A → (Error → R) → (A → S → R × S) → S → R × S
    or_return call refuse next s = returned refuse next (call s)

found_gone : Result Unit → Result Unit
found_gone (ok _) = ok tt
found_gone (err e) = if errors_is e Sentinel.not_found then ok tt else err e

-- A resource that is not found is as good as deleted.
unfoldable pub gone_is_fine : {S : Type 0} → Run S Unit → Run S Unit
unfolding found_gone
gone_is_fine call s = let (r, s') = call s in (found_gone r, s')

abbrev pub is_none : {A : Type 0} → Option A → Bool
is_none none = true
is_none (some a) = false

abbrev pub is_nil : List String → Bool
is_nil [] = true
is_nil (x ∷ xs) = false
