-- ===== src/Pulumi/Client/Calls/Retries.antt =====
-- How often a call is tried, and how long it waits between the attempts.
use nobus_csi.Common.{
  ℕ, zero, suc, ◌+◌, ◌*◌, ◌≤◌, ◌≡◌, Bool, true, false, not, ◌||◌, none, arith, Bool-cases,
  Option-cases, inl, inr,
}
use nobus_csi.Cloud.Errors.{Sentinel, errors_is, Result, ok, err}
use nobus_csi.Cloud.Interface.{Run}
use nobus_csi.Cloud.Run.{return, raise, attempt, ◌>>=◌}
use nobus_csi.Pulumi.Client.Calls.{
  Transport, HttpRequest, Session, Context, do_once, is_done, pause, after_attempt, attempts,
  do_request, of_reply,
}

module _ (T : Transport) where
  pause-elapsed :
      (ctx : Context) (delay : ℕ) (s : Session T)
      → (s.elapsed ≤ (pause T ctx delay s).1.elapsed)
        × ((pause T ctx delay s).1.elapsed ≤ s.elapsed + delay)
  unfolding pause
  pause-elapsed ctx delay s = elim (Option-cases (ctx (s.elapsed + delay))) [
    | inl e ↦ rw e (omega arith, omega arith)
    | inr (c, e) ↦ rw e (omega arith, omega arith)
  ]

-- An error that says that the API is unavailable.
abbrev pub is_unavailable : {A : Type 0} → Result A → Bool
is_unavailable (ok a) = false
is_unavailable (err e) = errors_is e Sentinel.unavailable

-- The milliseconds that a number of further attempts may wait.
abbrev waits : ℕ → ℕ → ℕ
waits zero number = 0
waits (suc more) number = number * number * 200 + waits more (suc number)

-- A transport whose state tells how many requests it has served.
module _ (T : Transport) (served : T.State → ℕ)
    (counts : (q : HttpRequest) (t : T.State) → served (T.send q t).1 ≡ suc (served t)) {A : Type 0}
    (ctx : Context) (request : HttpRequest) (decode : T.Body → Result A) where
  -- From a state on, so many requests at most and so many milliseconds at most.
  abbrev Within : ℕ → ℕ → ℕ → Session T → Session T → Type 0
  Within least most delay s t =
      (s.elapsed ≤ t.elapsed)
      × (t.elapsed ≤ s.elapsed + delay)
      × (served s.remote + least ≤ served t.remote)
      × (served t.remote ≤ served s.remote + most)

  later :
      (most delay number : ℕ) (again : Run (Session T) A) (s : Session T)
      → ((t : Session T) → Within 1 most delay t (again t).1)
      → Within 0 most
          (number * number * 200 + delay)
          s
          (again (record s { elapsed = s.elapsed + number * number * 200 })).1
  later most delay number again s h =
      let (a, b, c, d) = h (record s { elapsed = s.elapsed + number * number * 200 }) in
      (omega arith, omega arith, omega arith, d)

  after_attempt-Within :
      (most delay number : ℕ) (again : Run (Session T) A) (r : Result A) (s : Session T)
      → ((t : Session T) → Within 1 most delay t (again t).1)
      → Within 0 most
          (number * number * 200 + delay)
          s
          (after_attempt T ctx request decode number again r s).1
  unfolding after_attempt pause ◌>>=◌ return raise
  after_attempt-Within most delay number again (ok a) s h =
      (omega arith, omega arith, omega arith, omega arith)
  after_attempt-Within most delay number again (err e) s h =
      elim (Bool-cases (not (errors_is e Sentinel.unavailable) || is_done T (ctx s.elapsed))) [
        | inl stop ↦ rw stop (omega arith, omega arith, omega arith, omega arith)
        | inr go ↦ rw go (elim (Option-cases (ctx (s.elapsed + number * number * 200))) [
          | inl due ↦ rw due (later most delay number again s h)
          | inr (c, over) ↦ rw over (omega arith, omega arith, omega arith, omega arith)
        ])
      ]

  attempts-Within :
      (more number : ℕ) (s : Session T)
      → Within 1 (suc more) (waits more number) s (attempts T ctx request decode more number s).1
  unfolding attempts do_once ◌>>=◌ attempt
  attempts-Within zero number s = (
    omega arith,
    omega arith,
    omega (arith, counts request s.remote),
    omega (arith, counts request s.remote),
  )
  attempts-Within (suc more) number s =
      let t : Session T = record s { remote = (T.send request s.remote).1 } in
      let (a, b, c, d) =
        after_attempt-Within (suc more) (waits more (suc number)) number
          (attempts T ctx request decode more (suc number))
          (of_reply T decode (T.send request s.remote).0) t (attempts-Within more (suc number)) in
      (a, b, omega (arith, counts request s.remote, c), omega (arith, counts request s.remote, d))

  -- A call sends one to four requests and waits 2.8 seconds at most, whatever the API answers and
  -- whenever the context ends, and the clock does not run back.
  pub do_request-Within :
      (s : Session T)
      → (s.elapsed ≤ (do_request T ctx request decode s).1.elapsed)
        × ((do_request T ctx request decode s).1.elapsed ≤ s.elapsed + 2_800)
        × (served s.remote + 1 ≤ served (do_request T ctx request decode s).1.remote)
        × (served (do_request T ctx request decode s).1.remote ≤ served s.remote + 4)
  unfolding do_request
  do_request-Within s = attempts-Within 3 1 s

  module _ (endless : (t : ℕ) → ctx t ≡ none) where
    after_attempt-persists :
        (most number : ℕ) (again : Run (Session T) A) (r : Result A) (s : Session T)
        → ((t : Session T)
            → is_unavailable (again t).0 ≡ true
            → served (again t).1.remote ≡ served t.remote + most)
        → is_unavailable (after_attempt T ctx request decode number again r s).0 ≡ true
        → served (after_attempt T ctx request decode number again r s).1.remote
          ≡ served s.remote + most
    unfolding after_attempt pause ◌>>=◌ return raise
    after_attempt-persists most number again (ok a) s h u = cc
    after_attempt-persists most number again (err e) s h u = ground (
      arith,
      endless s.elapsed,
      endless (s.elapsed + number * number * 200),
      h (record s { elapsed = s.elapsed + number * number * 200 }),
      u,
    )

    attempts-persists :
        (more number : ℕ) (s : Session T)
        → is_unavailable (attempts T ctx request decode more number s).0 ≡ true
        → served (attempts T ctx request decode more number s).1.remote ≡ served s.remote + suc more
    unfolding attempts do_once ◌>>=◌ attempt
    attempts-persists zero number s u = omega (arith, counts request s.remote)
    attempts-persists (suc more) number s u =
        let t : Session T = record s { remote = (T.send request s.remote).1 } in
        let e =
          after_attempt-persists (suc more) number (attempts T ctx request decode more (suc number))
            (of_reply T decode (T.send request s.remote).0) t (attempts-persists more (suc number))
            u in
        omega (arith, e, counts request s.remote)

    -- Under a context that does not end, a call answers that the API is unavailable only after four
    -- requests.
    pub do_request-persists :
        (s : Session T)
        → is_unavailable (do_request T ctx request decode s).0 ≡ true
        → served (do_request T ctx request decode s).1.remote ≡ served s.remote + 4
    do_request-persists s u = unfold do_request in attempts-persists 3 1 s u
