-- ===== src/Pulumi/Client/Waits/Enough.antt =====
-- The rounds of a wait are enough: it ends by its limit, and not by their number.
use nobus_csi.Common.{
  ℕ, zero, suc, ◌+◌, ◌*◌, ◌/◌, ◌≤◌, ◌<◌, ◌≡◌, refl, true, Option, none, some, arith, Option-cases,
  inl, inr,
}
use native.Mathlib.Nat.{div-add-mod, mod-lt}
use nobus_csi.Cloud.Errors.{Result, ok, err}
use nobus_csi.Cloud.Interface.{Run}
use nobus_csi.Cloud.Run.{◌>>=◌, ◌>>◌}
use nobus_csi.Pulumi.Client.Calls.{Transport, Session, Context, pause, is_done}
use nobus_csi.Pulumi.Client.Waits.{within, rounds, after_poll, poll_until, wait_until}
use nobus_csi.Pulumi.Client.Calls.Forward.{Forward}

module _ (T : Transport) (poll : ℕ) {A : Type 0} (fn : Context → Run (Session T) (Option A))
    (forward : (ctx : Context) → Forward (fn ctx)) where
  same_pause :
      (ctx : Context) (again more : Run (Session T) A) (s : Session T)
      → (ctx (s.elapsed + poll) ≡ none
          → again (record s { elapsed = s.elapsed + poll })
            ≡ more (record s { elapsed = s.elapsed + poll }))
      → (pause T ctx poll >> again) s ≡ (pause T ctx poll >> more) s
  unfolding pause ◌>>=◌
  same_pause ctx again more s h = elim (Option-cases (ctx (s.elapsed + poll))) [
    | inl due ↦ rw due (h due)
    | inr (c, over) ↦ rw over refl
  ]

  same_poll :
      (again more : Run (Session T) A) (r : Result (Option A) × Session T)
      → again r.1 ≡ more r.1
      → ((λ (_ : Session T). r) >>= after_poll T poll again) r.1
        ≡ ((λ (_ : Session T). r) >>= after_poll T poll more) r.1
  unfolding ◌>>=◌ after_poll
  same_poll again more (ok (some a), t) h = refl
  same_poll again more (ok none, t) h = h
  same_poll again more (err e, t) h = refl

  poll_until-enough :
      (ctx : Context) (deadline : ℕ) (few more : ℕ) (s : Session T)
      → ((t : ℕ) → deadline ≤ t → is_done T (ctx t) ≡ true)
      → deadline ≤ s.elapsed + poll * suc few
      → few ≤ more
      → poll_until T poll ctx (suc more) fn s ≡ poll_until T poll ctx (suc few) fn s
  unfolding poll_until ◌>>=◌
  poll_until-enough ctx deadline zero more s over h le = same_poll _ _ (fn ctx s) (
      same_pause ctx _ _ (fn ctx s).1 (λ due.
        absurd (ground (arith, over ((fn ctx s).1.elapsed + poll), (forward ctx).at s, due))))
  poll_until-enough ctx deadline (suc few) zero s over h le = absurd (omega arith)
  poll_until-enough ctx deadline (suc few) (suc more) s over h le = same_poll _ _ (fn ctx s) (
      same_pause ctx _ _ (fn ctx s).1 (λ due.
        poll_until-enough ctx deadline few more _ over (omega (arith, (forward ctx).at s))
          (omega arith)))

  within-done :
      (ctx : Context) (deadline t : ℕ) → deadline ≤ t → is_done T (within ctx deadline t) ≡ true
  unfolding within
  within-done ctx deadline t h = ground arith

  -- However many more polls are allowed, a wait for a time, with polls some time apart, gives the same
  -- answer and leaves the same state, where a poll does not turn the clock back.
  pub wait_until-enough :
      (ctx : Context) (limit more : ℕ) (s : Session T)
      → 0 < poll
      → rounds limit poll ≤ more
      → poll_until T poll (within ctx (s.elapsed + limit)) more fn s
        ≡ wait_until T poll ctx limit fn s
  unfolding wait_until rounds
  wait_until-enough ctx limit zero s pos le = absurd (omega arith)
  wait_until-enough ctx limit (suc more) s pos le =
      poll_until-enough (within ctx (s.elapsed + limit)) (s.elapsed + limit) (limit / poll) more s
        (within-done ctx (s.elapsed + limit))
        (omega (arith, div-add-mod limit poll, mod-lt limit pos)) (omega arith)
