-- ===== src/Driver/Session.antt =====
-- How a handler of internal/driver runs: what a request's context and the provider see, the driver's
-- two lock tables, and the steps that handlers are made of.
pub mod Keeps
pub mod Elapsed
pub mod Ensures
use nobus_csi.Common.{ℕ, ◌+◌, Bool, true, false, String, Option, none, some, ◌==◌, if◌then◌else◌}
use nobus_csi.Cloud.Errors.{Sentinel, Code, Error, grpc, Result, ok, err, sentinel}
use nobus_csi.Cloud.Interface.{Run, Cloud}
use nobus_csi.Driver.Status.{status, status_error}
unfoldable pub use nobus_csi.Cloud.Run.{return, raise, lift, attempt, fail_as, ◌>>=◌}
pub use nobus_csi.Cloud.Run.{with_error, after, ◌>>◌}
use nobus_csi.Driver.Locks.{VolumeLocks, try_lock, unlock}

-- The provider's state, and the milliseconds that the request has waited.
pub record Session (C : Cloud) : Type 0 where
  pub store : C.State
  pub elapsed : ℕ

-- `Driver`, without its configuration: `locks` holds volume identifiers, `names` names.
pub record Driver (C : Cloud) : Type 0 where
  pub session : Session C
  pub locks : VolumeLocks
  pub names : VolumeLocks

module _ {S A : Type 0} where
  -- A text that the request must give.
  abbrev pub require : String → String → Run S A → Run S A
  require value message body =
      if value == "" then raise (status Code.invalid_argument message) else body

module _ {C : Cloud} {A : Type 0} where
  -- A call of the provider.
  unfoldable pub call : Run C.State A → Run (Session C) A
  call m s = let (r, store) = m s.store in (r, record s { store = store })

  -- The lock is taken, or the request is refused; it is given back however the body ends.
  under_lock : Option VolumeLocks → String → String → Run (Session C) A → Run (Driver C) A
  under_lock none id message body d = (err (status Code.aborted message), d)
  under_lock (some held) id message body d =
      let (r, s) = body d.session in (r, record d { session = s; locks = unlock id held })

  unfoldable pub with_volume : String → Run (Session C) A → Run (Driver C) A
  unfolding under_lock
  with_volume id body d =
      under_lock (try_lock id d.locks) id "another operation is in flight for this volume" body d

  under_name : Option VolumeLocks → String → String → Run (Session C) A → Run (Driver C) A
  under_name none name message body d = (err (status Code.aborted message), d)
  under_name (some held) name message body d =
      let (r, s) = body d.session in (r, record d { session = s; names = unlock name held })

  unfoldable pub with_name : String → String → Run (Session C) A → Run (Driver C) A
  unfolding under_name
  with_name name message body d = under_name (try_lock name d.names) name message body d

  -- A handler that takes no lock.
  unfoldable pub without_lock : Run (Session C) A → Run (Driver C) A
  without_lock body d = let (r, s) = body d.session in (r, record d { session = s })

-- `wait`: the context says at which times it is done. Where the timer and the context are ready at
-- once the model takes the context, as `select` may.
module _ {C : Cloud} (ctx : ℕ → Bool) where
  unfoldable pub wait : ℕ → Run (Session C) Unit
  wait delay s =
      if ctx (s.elapsed + delay)
      then (err (sentinel Sentinel.unavailable), s)
      else (ok tt, record s { elapsed = s.elapsed + delay })
