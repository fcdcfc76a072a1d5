-- ===== src/Pulumi/Client/Calls/Accepted.antt =====
-- A call whose first request is accepted.
use nobus_csi.Common.{◌≡◌, refl, false, leb}
use nobus_csi.Cloud.Errors.{ok}
use nobus_csi.Cloud.Run.{return, attempt, ◌>>=◌}
use nobus_csi.Pulumi.Client.Calls.{
  Transport, HttpRequest, Session, Context, Reply, unreachable, replied, of_reply, do_once,
  after_attempt, attempts, do_request,
}

-- The reply says that the request is done.
abbrev pub Accepted : {Body : Type 0} → Reply Body → Type 0
Accepted (unreachable causes) = ⊥
Accepted (replied code body) = leb 400 code ≡ false

module _ (T : Transport) (ctx : Context) (request : HttpRequest) where
  reply-Accepted : (r : Reply T.Body) → Accepted r → of_reply T (λ _. ok tt) r ≡ ok tt
  unfolding of_reply
  reply-Accepted (unreachable causes) a = elim a [ ]
  reply-Accepted (replied code body) a = rw a refl

  pub do_request-Accepted :
      (s : Session T)
      → Accepted (T.send request s.remote).0
      → do_request T ctx request (λ _. ok tt) s
        ≡ (ok tt, record s { remote = (T.send request s.remote).1 })
  unfolding do_request attempts do_once ◌>>=◌ attempt after_attempt return
  do_request-Accepted s a = rw (reply-Accepted (T.send request s.remote).0 a) refl
