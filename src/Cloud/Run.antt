-- ===== src/Cloud/Run.antt =====
-- The steps that a function of the code is made of: it returns, fails, looks at an error, or goes on.
use nobus_csi.Cloud.Errors.{Error, Result, ok, err}
use nobus_csi.Cloud.Interface.{Run}

module _ {S A : Type 0} where
  unfoldable pub return : A → Run S A
  return a s = (ok a, s)

  unfoldable pub raise : Error → Run S A
  raise e s = (err e, s)

  unfoldable pub lift : Result A → Run S A
  lift r s = (r, s)

  -- `value, err := call`: the error is a value that the code goes on to test.
  unfoldable pub attempt : Run S A → Run S (Result A)
  attempt m s = let (r, s') = m s in (ok r, s')

  abbrev pub with_error : (Error → Error) → Result A × S → Result A × S
  with_error f (ok a, s) = (ok a, s)
  with_error f (err e, s) = (err (f e), s)

  -- `if err != nil { return f(err) }`
  unfoldable pub fail_as : (Error → Error) → Run S A → Run S A
  fail_as f m s = with_error f (m s)

module _ {S A B : Type 0} where
  abbrev pub after : Result A × S → (A → Run S B) → Result B × S
  after (ok a, s) f = f a s
  after (err e, s) f = (err e, s)

  infixl 10 ◌>>=◌ ◌>>◌
  unfoldable pub ◌>>=◌ : Run S A → (A → Run S B) → Run S B
  unfolding return raise lift attempt fail_as
  ◌>>=◌ m f s = after (m s) f

  abbrev pub ◌>>◌ : Run S A → Run S B → Run S B
  m >> k = m >>= λ _. k
