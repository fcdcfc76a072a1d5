-- ===== src/Cloud/Client/Volumes/Polls.antt =====
-- The rounds of the wait for a deleted volume are enough.
use nobus_csi.Common.{
  ℕ, zero, suc, ◌+◌, ◌*◌, ◌≤◌, ◌≡◌, refl, ◌∙◌, Bool, true, false, String, arith, Bool-cases, inl,
  inr,
}
use nobus_csi.Cloud.Errors.{Result, ok, err}
use nobus_csi.Cloud.Types.{Page, Volume}
use nobus_csi.Common.Int.{pos}
use nobus_csi.Common.Text.{or_else}
use nobus_csi.Cloud.Interface.{Run}
use nobus_csi.Cloud.Run.{lift, attempt, after, ◌>>=◌, ◌>>◌}
use nobus_csi.Cloud.Client.Calls.{Transport, ClientConfig}
use nobus_csi.Cloud.Client.Volumes.{
  Polling, api, list_volumes, get_volume_by_id_in_zone, with_id, after_look, pause,
  wait_volume_deleted,
}

module _ (T : Transport) (config : ClientConfig) where
  -- A call takes no time on the client's clock.
  lifted-elapsed :
      {A B : Type 0} (m : Result A × Polling T) (f : A → Result B)
      → (after m (λ a. lift (f a))).1.elapsed ≡ m.1.elapsed
  unfolding lift
  lifted-elapsed (ok a, s) f = refl
  lifted-elapsed (err e, s) f = refl

  list_volumes-elapsed :
      (page : Page) (s : Polling T) → (list_volumes T config page s).1.elapsed ≡ s.elapsed
  unfolding list_volumes ◌>>=◌ api
  list_volumes-elapsed page s = lifted-elapsed _ _

  abbrev zone_page : String → Page
  zone_page zone = record {
    token = "";
    size = pos 0;
    name = "";
    availability_zone = or_else zone config.availability_zone;
  }

  get_volume-elapsed :
      (id zone : String) (s : Polling T)
      → (get_volume_by_id_in_zone T config id zone s).1.elapsed ≡ s.elapsed
  unfolding get_volume_by_id_in_zone ◌>>=◌
  get_volume-elapsed id zone s =
      lifted-elapsed (list_volumes T config (zone_page zone) s) (λ l. with_id id l.0)
      ∙ list_volumes-elapsed (zone_page zone) s

  module _ (done : ℕ → Bool) (limit : ℕ) (over : (t : ℕ) → limit ≤ t → done t ≡ true)
      (id : String) where
    same_look :
        (again more : Run (Polling T) Unit) (r : Result Volume) (t : Polling T)
        → again t ≡ more t
        → after_look T config again r t ≡ after_look T config more r t
    unfolding after_look
    same_look again more (ok v) t h = h
    same_look again more (err e) t h = refl

    same_pause :
        (rest more : Run (Polling T) Unit) (t : Polling T)
        → (done (t.elapsed + 2000) ≡ false
            → rest (record t { elapsed = t.elapsed + 2000 })
              ≡ more (record t { elapsed = t.elapsed + 2000 }))
        → (pause T config done >> rest) t ≡ (pause T config done >> more) t
    unfolding pause ◌>>=◌
    same_pause rest more t h = elim (Bool-cases (done (t.elapsed + 2000))) [
      | inl end ↦ rw end refl
      | inr early ↦ rw early (h early)
    ]

    abbrev seen : Polling T → Polling T
    seen s = (get_volume_by_id_in_zone T config id config.availability_zone s).1

    -- Where the context is done from a time on that a number of polls, two seconds apart, reaches, a
    -- larger bound on the number of polls gives the same answer and leaves the same state: the wait
    -- ends by itself, and not by the bound.
    pub wait_volume_deleted-enough :
        (few more : ℕ) (s : Polling T)
        → limit ≤ s.elapsed + 2000 * suc few
        → few ≤ more
        → wait_volume_deleted T config done (suc more) id s
          ≡ wait_volume_deleted T config done (suc few) id s
    unfolding wait_volume_deleted ◌>>=◌ attempt
    wait_volume_deleted-enough zero more s h le =
        same_look _ _ (get_volume_by_id_in_zone T config id config.availability_zone s).0 (seen s) (
          same_pause _ _ (seen s) (λ early. absurd (
            ground (
              arith,
              over ((seen s).elapsed + 2000),
              get_volume-elapsed id config.availability_zone s,
            ))))
    wait_volume_deleted-enough (suc few) zero s h le = absurd (omega arith)
    wait_volume_deleted-enough (suc few) (suc more) s h le =
        same_look _ _ (get_volume_by_id_in_zone T config id config.availability_zone s).0 (seen s) (
          same_pause _ _ (seen s) (λ early.
            wait_volume_deleted-enough few more
              (record (seen s) { elapsed = (seen s).elapsed + 2000 })
              (omega (arith, get_volume-elapsed id config.availability_zone s)) (omega arith)))
