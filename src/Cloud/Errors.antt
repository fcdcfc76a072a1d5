-- ===== src/Cloud/Errors.antt =====
-- internal/cloud/errors.go, and Go's error values as the code builds and tests them.
use nobus_csi.Common.{ℕ, Bool, false, ◌||◌, String, List, [], ◌∷◌, eqb}
use nobus_csi.Common.Int.{ℤ}

-- The sentinel errors of the package, and the two of package `context`.
pub data Sentinel : Type 0 where
  not_found already_exists quota_exceeded conflict rate_limited unavailable : Sentinel
  out_of_range unauthorized invalid canceled deadline_exceeded : Sentinel

-- The gRPC codes that the driver answers with.
pub data Code : Type 0 where
  canceled deadline_exceeded not_found already_exists resource_exhausted : Code
  failed_precondition unavailable out_of_range permission_denied : Code
  invalid_argument internal aborted : Code

-- A message is its text, or a format with its arguments.
pub data Arg : Type 0 where
  str : String → Arg
  num : ℤ → Arg
  enum : ℕ → Arg

pub data Message : Type 0 where
  text : String → Message
  format : String → List Arg → Message

-- An error is a gRPC status, or a chain that wraps sentinels: `fmt.Errorf` with `%w` and
-- `errors.Join`. The text of a chain is dropped, since nothing reads it.
pub data Error : Type 0 where
  grpc : Code → Message → Error
  wrap : List Sentinel → Error

abbrev pub tag : Sentinel → ℕ
tag Sentinel.not_found = 0
tag Sentinel.already_exists = 1
tag Sentinel.quota_exceeded = 2
tag Sentinel.conflict = 3
tag Sentinel.rate_limited = 4
tag Sentinel.unavailable = 5
tag Sentinel.out_of_range = 6
tag Sentinel.unauthorized = 7
tag Sentinel.invalid = 8
tag Sentinel.canceled = 9
tag Sentinel.deadline_exceeded = 10

abbrev pub wraps : List Sentinel → Sentinel → Bool
wraps [] s = false
wraps (x ∷ xs) s = eqb (tag x) (tag s) || wraps xs s

-- `errors.Is`
abbrev pub errors_is : Error → Sentinel → Bool
errors_is (grpc c m) s = false
errors_is (wrap xs) s = wraps xs s

-- A sentinel returned as it stands.
abbrev pub sentinel : Sentinel → Error
sentinel s = wrap (s ∷ [])

-- What a fallible function of the code returns.
pub data Result (A : Type 0) : Type 0 where
  ok : A → Result A
  err : Error → Result A
