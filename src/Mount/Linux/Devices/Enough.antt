-- ===== src/Mount/Linux/Devices/Enough.antt =====
-- The looks of `FindDevice` are enough: it ends by its deadline, and not by their number.
use nobus_csi.Common.{
  ℕ, zero, suc, ◌+◌, ◌*◌, ◌≤◌, ◌≡◌, refl, Bool, true, false, String, List, [], ◌∷◌, Option, none,
  some, arith, ◌==◌, leb, inl, inr, Bool-cases,
}
use nobus_csi.Cloud.Errors.{Result, ok, err}
use nobus_csi.Cloud.Interface.{Run}
use nobus_csi.Cloud.Run.{◌>>=◌}
use nobus_csi.Mount.Linux.{
  Host, Reply, done, missing, broken, Waiting, Context, on_host, device_candidates,
}
use nobus_csi.Mount.Linux.Devices.{
  first_device, after_candidate, found_of, seek, found_or, await_device, look_again,
  linux_find_device, device_looks, device_wait_timeout,
}

module _ (H : Host) where
  after_candidate-elapsed :
      (rest : Run (Waiting H) (Option String)) (r : Reply String) (s : Waiting H)
      → (rest s).1.elapsed ≡ s.elapsed
      → (((λ (_ : Waiting H). (found_of r, s)) >>= after_candidate H rest) s).1.elapsed ≡ s.elapsed
  unfolding ◌>>=◌ after_candidate
  after_candidate-elapsed rest (done path) s h = refl
  after_candidate-elapsed rest missing s h = h
  after_candidate-elapsed rest broken s h = refl

  -- Looking takes no time.
  first_device-elapsed :
      (cs : List String) (s : Waiting H) → (first_device H cs s).1.elapsed ≡ s.elapsed
  unfolding first_device on_host ◌>>=◌
  first_device-elapsed [] s = refl
  first_device-elapsed (c ∷ cs) s = elim (Bool-cases (c == "")) [
    | inl empty ↦ rw empty (first_device-elapsed cs s)
    | inr named ↦ rw named (
        after_candidate-elapsed (first_device H cs) (H.eval_symlinks c s.host).0
          (record s { host = (H.eval_symlinks c s.host).1 })
          (first_device-elapsed cs (record s { host = (H.eval_symlinks c s.host).1 })))
  ]

  module _ (ctx : Context) where
    same_look :
        (again more : Run (Waiting H) String) (r : Result (Option String) × Waiting H)
        → again r.1 ≡ more r.1
        → ((λ (_ : Waiting H). r) >>= found_or H ctx again) r.1
          ≡ ((λ (_ : Waiting H). r) >>= found_or H ctx more) r.1
    unfolding ◌>>=◌ found_or
    same_look again more (ok (some path), t) h = refl
    same_look again more (ok none, t) h = h
    same_look again more (err e, t) h = refl

    same_again :
        (again more : Run (Waiting H) String) (over : Bool) (s : Waiting H)
        → (over ≡ false → again s ≡ more s)
        → look_again H ctx again over s ≡ look_again H ctx more over s
    unfolding look_again
    same_again again more true s h = refl
    same_again again more false s h = h refl

    same_await :
        (deadline : ℕ) (again more : Run (Waiting H) String) (s : Waiting H)
        → (leb deadline (s.elapsed + 500) ≡ false
            → again (record s { elapsed = s.elapsed + 500 })
              ≡ more (record s { elapsed = s.elapsed + 500 }))
        → await_device H ctx deadline again s ≡ await_device H ctx deadline more s
    unfolding await_device
    same_await deadline again more s h =
        same_again again more _ _ (λ going. h (ground (arith, going)))

    seek-enough :
        (cs : List String) (deadline few more : ℕ) (s : Waiting H)
        → deadline ≤ s.elapsed + 500 * suc few
        → few ≤ more
        → seek H ctx cs deadline (suc more) s ≡ seek H ctx cs deadline (suc few) s
    unfolding seek ◌>>=◌
    seek-enough cs deadline zero more s h le = same_look _ _ (first_device H cs s) (
        same_await deadline _ _ (first_device H cs s).1
          (λ going. absurd (ground (arith, first_device-elapsed cs s, going))))
    seek-enough cs deadline (suc few) zero s h le = absurd (omega arith)
    seek-enough cs deadline (suc few) (suc more) s h le = same_look _ _ (first_device H cs s) (
        same_await deadline _ _ (first_device H cs s).1 (λ going.
          seek-enough cs deadline few more _ (omega (arith, first_device-elapsed cs s))
            (omega arith)))

    -- However many more looks are allowed, the search for a device gives the same answer and leaves
    -- the same state.
    pub linux_find_device-enough :
        (id hint : String) (more : ℕ) (s : Waiting H)
        → device_looks ≤ more
        → seek H ctx (device_candidates H.join id hint) (s.elapsed + device_wait_timeout) more s
          ≡ linux_find_device H ctx id hint s
    unfolding linux_find_device
    linux_find_device-enough id hint zero s le = absurd (omega arith)
    linux_find_device-enough id hint (suc more) s le =
        seek-enough (device_candidates H.join id hint) (s.elapsed + device_wait_timeout) 240 more s
          (omega arith) (omega arith)
