-- ===== src/Driver/Status/Laws.antt =====
-- What `statusError` makes of each error.
use nobus_csi.Common.{◌≡◌, Bool, true, false, List, [], ◌∷◌, arith, eqb, if◌then◌else◌}
use nobus_csi.Cloud.Errors.{
  Sentinel, Code, Error, Result, ok, err, grpc, wrap, wraps, errors_is, tag,
}
use nobus_csi.Driver.Status.{status_error, grpc_error}

-- The code of a status; an error that is no status has none.
abbrev pub HasCode : Code → Error → Type 0
HasCode c (grpc d m) = d ≡ c
HasCode c (wrap xs) = ⊥

-- The gRPC code for each sentinel.
abbrev pub code_of : Sentinel → Code
code_of Sentinel.not_found = Code.not_found
code_of Sentinel.already_exists = Code.already_exists
code_of Sentinel.quota_exceeded = Code.resource_exhausted
code_of Sentinel.conflict = Code.failed_precondition
code_of Sentinel.rate_limited = Code.unavailable
code_of Sentinel.unavailable = Code.unavailable
code_of Sentinel.out_of_range = Code.out_of_range
code_of Sentinel.unauthorized = Code.permission_denied
code_of Sentinel.invalid = Code.invalid_argument
code_of Sentinel.canceled = Code.canceled
code_of Sentinel.deadline_exceeded = Code.deadline_exceeded

-- The error is a gRPC status.
abbrev pub IsStatus : Error → Type 0
IsStatus (grpc c m) = Unit
IsStatus (wrap xs) = ⊥

pub status_error-IsStatus : (e : Error) → IsStatus (status_error e)
unfolding status_error
status_error-IsStatus e = ground arith

pub grpc_error-IsStatus : (e : Error) → IsStatus (grpc_error e)
unfolding grpc_error
grpc_error-IsStatus (grpc c m) = tt
grpc_error-IsStatus (wrap xs) = status_error-IsStatus (wrap xs)

-- Every sentinel of the list is the given one.
abbrev OnlyWraps : Sentinel → List Sentinel → Type 0
OnlyWraps s [] = Unit
OnlyWraps s (x ∷ xs) = (x ≡ s) × OnlyWraps s xs

wraps_only :
    (s t : Sentinel) (xs : List Sentinel) → OnlyWraps s xs → wraps (s ∷ xs) t ≡ eqb (tag s) (tag t)
wraps_only s t [] h = ground arith
wraps_only s t (x ∷ xs) h = rw h.0 (ground (arith, wraps_only s t xs h.1))

status_error_of_sentinel :
    (s : Sentinel) (e : Error)
    → ((t : Sentinel) → errors_is e t ≡ eqb (tag s) (tag t))
    → HasCode (code_of s) (status_error e)
unfolding status_error
status_error_of_sentinel Sentinel.canceled e h = simp h
status_error_of_sentinel Sentinel.deadline_exceeded e h = simp h
status_error_of_sentinel Sentinel.not_found e h = simp h
status_error_of_sentinel Sentinel.already_exists e h = simp h
status_error_of_sentinel Sentinel.quota_exceeded e h = simp h
status_error_of_sentinel Sentinel.conflict e h = simp h
status_error_of_sentinel Sentinel.rate_limited e h = simp h
status_error_of_sentinel Sentinel.unavailable e h = simp h
status_error_of_sentinel Sentinel.out_of_range e h = simp h
status_error_of_sentinel Sentinel.unauthorized e h = simp h
status_error_of_sentinel Sentinel.invalid e h = simp h

-- An error that wraps one sentinel and no other, however often, gets that sentinel's gRPC code.
pub status_error-code_of :
    (s : Sentinel) (xs : List Sentinel)
    → OnlyWraps s xs
    → HasCode (code_of s) (status_error (wrap (s ∷ xs)))
status_error-code_of s xs h = status_error_of_sentinel s (wrap (s ∷ xs)) (λ t. wraps_only s t xs h)

-- A value satisfies `P`, an error `Q`.
abbrev pub Holds : {A : Type 0} → (A → Type 0) → (Error → Type 0) → Result A → Type 0
Holds P Q (ok a) = P a
Holds P Q (err e) = Q e

abbrev pub Any : {A : Type 0} → A → Type 0
Any a = Unit

pub IsStatus-if :
    {A : Type 0} (b : Bool) (x y : Result A)
    → Holds Any IsStatus x
    → Holds Any IsStatus y
    → Holds Any IsStatus (if b then x else y)
IsStatus-if true x y hx hy = hx
IsStatus-if false x y hx hy = hy
