-- ===== src/Pulumi/Client/Waits.antt =====
-- `waitUntil` of client.go: polls until one is done or fails, or until the context ends.
pub mod Enough
pub mod Success
use nobus_csi.Common.{
  ℕ, zero, suc, ◌+◌, ◌/◌, Bool, true, false, Option, none, some, List, [], ◌∷◌, leb, if◌then◌else◌,
}
use nobus_csi.Cloud.Errors.{Sentinel, Error, wrap, Result, ok, err}
use nobus_csi.Cloud.Interface.{Run}
use nobus_csi.Cloud.Run.{return, raise, ◌>>=◌, ◌>>◌}
use nobus_csi.Pulumi.Client.Calls.{Transport, Session, Context, pause}

-- The context of the wait: the caller's, with a deadline.
unfoldable pub within : Context → ℕ → Context
within ctx deadline t = elim (ctx t) [
  | some e ↦ some e
  | none ↦ if leb deadline t then some Sentinel.deadline_exceeded else none
]

-- Enough polls for the limit, so far apart.
unfoldable pub rounds : ℕ → ℕ → ℕ
rounds limit poll = suc (limit / poll)

module _ (T : Transport) (poll : ℕ) where
  module _ {A : Type 0} where
    after_poll : Run (Session T) A → Option A → Run (Session T) A
    after_poll again (some a) s = return a s
    after_poll again none s = again s

    -- The polls of a context, at most so many. A poll answers what the wait was for once it is done.
    unfoldable pub poll_until :
        Context → ℕ → (Context → Run (Session T) (Option A)) → Run (Session T) A
    unfolding after_poll
    poll_until ctx zero fn = raise (wrap (Sentinel.deadline_exceeded ∷ []))
    poll_until ctx (suc more) fn = do
      seen ← fn ctx
      after_poll (do pause T ctx poll; poll_until ctx more fn) seen

    unfoldable pub wait_until :
        Context → ℕ → (Context → Run (Session T) (Option A)) → Run (Session T) A
    wait_until ctx limit fn s = poll_until (within ctx (s.elapsed + limit)) (rounds limit poll) fn s
