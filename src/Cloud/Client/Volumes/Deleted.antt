-- ===== src/Cloud/Client/Volumes/Deleted.antt =====
-- What `DeleteVolume` waits for.
use nobus_csi.Common.{
  ℕ, zero, suc, ◌+◌, ◌≡◌, ◌≢◌, refl, Bool, true, String, List, [], ◌∷◌, ◌==◌, eq_iff, arith, ap,
  Bool-cases, inl, inr,
}
use mathlib.Core.Path.{subst}
use nobus_csi.Common.Int.{pos}
use nobus_csi.Common.Text.{or_else}
use nobus_csi.Common.Lists.{All}
use nobus_csi.Cloud.Errors.{Sentinel, Error, errors_is, Result, ok, err}
use nobus_csi.Cloud.Types.{Page, Volume}
use nobus_csi.Cloud.Interface.{Run}
use nobus_csi.Cloud.Run.{return, raise, attempt, lift, after, ◌>>=◌, ◌>>◌}
use nobus_csi.Cloud.Client.Calls.{Transport, ClientConfig}
use nobus_csi.Cloud.Client.Volumes.{
  Polling, list_volumes, with_id, get_volume_by_id_in_zone, after_look, pause, wait_volume_deleted,
  delete_volume, within,
}

-- No volume of the list has the identifier.
abbrev pub Lacks : String → List Volume → Type 0
Lacks id vs = All (λ (v : Volume). v.id ≢ id) vs

with_id-cons :
    (id : String) (v : Volume) (vs : List Volume) (e : Error)
    → with_id id (v ∷ vs) ≡ err e
    → (v.id ≢ id) × (with_id id vs ≡ err e)
unfolding with_id
with_id-cons id v vs e h = elim (Bool-cases (v.id == id)) [
  | inl found ↦ ground (arith, h, found)
  | inr other ↦ (ground (arith, eq_iff v.id id, other), ground (arith, h, other))
]

-- A search that fails is a search of a list without the volume.
with_id-Lacks : (id : String) (vs : List Volume) (e : Error) → with_id id vs ≡ err e → Lacks id vs
with_id-Lacks id [] e h = tt
with_id-Lacks id (v ∷ vs) e h = let c = with_id-cons id v vs e h in (c.0, with_id-Lacks id vs e c.1)

module _ (T : Transport) (config : ClientConfig) (id : String) where
  -- The page that asks for the whole zone of the client.
  abbrev zone_page : Page
  zone_page = record {
    token = "";
    size = pos 0;
    name = "";
    availability_zone = or_else config.availability_zone config.availability_zone;
  }

  -- What the last listing of the zone was: one without the volume, or one that the API refused
  -- because something was not found.
  abbrev pub LastListing : Result (List Volume × String) → Type 0
  LastListing (ok (vs, token)) = Lacks id vs
  LastListing (err e) = errors_is e Sentinel.not_found ≡ true

  -- The last call of the client was such a listing.
  abbrev pub Absent : Polling T → Type 0
  Absent end =
      (s : Polling T) × (r : Result (List Volume × String)) × (list_volumes T config zone_page s
        ≡ (r, end))
      × LastListing r

  -- A success of the wait comes with such a listing.
  abbrev pub EndsAbsent : Result Unit × Polling T → Type 0
  EndsAbsent (ok u, end) = Absent end
  EndsAbsent (err e, end) = Unit

  found-Absent :
      (s : Polling T) (r : Result (List Volume × String) × Polling T) (e : Error) (end : Polling T)
      → list_volumes T config zone_page s ≡ r
      → errors_is e Sentinel.not_found ≡ true
      → after r (λ listed. lift (with_id id listed.0)) ≡ (err e, end)
      → Absent end
  unfolding lift
  found-Absent s (ok (vs, token), t) e end l gone h = (
    s,
    ok (vs, token),
    subst (λ u. list_volumes T config zone_page s ≡ (ok (vs, token), u)) (ap (λ p. p.1) h) l,
    with_id-Lacks id vs e (ap (λ p. p.0) h),
  )
  found-Absent s (err x, t) e end l gone h = (
    s,
    err x,
    subst (λ u. list_volumes T config zone_page s ≡ (err x, u)) (ap (λ p. p.1) h) l,
    ground (arith, ap (λ p. p.0) h, gone),
  )

  module _ (done : ℕ → Bool) where
    paused-EndsAbsent :
        (rest : Run (Polling T) Unit) (s : Polling T)
        → ((t : Polling T) → EndsAbsent (rest t))
        → EndsAbsent ((pause T config done >> rest) s)
    unfolding pause ◌>>=◌
    paused-EndsAbsent rest s h = elim (Bool-cases (done (s.elapsed + 2000))) [
      | inl over ↦ rw over tt
      | inr more ↦ rw more (h (record s { elapsed = s.elapsed + 2000 }))
    ]

    looked-EndsAbsent :
        (again : Run (Polling T) Unit) (s : Polling T) (r : Result Volume) (end : Polling T)
        → ((t : Polling T) → EndsAbsent (again t))
        → get_volume_by_id_in_zone T config id config.availability_zone s ≡ (r, end)
        → EndsAbsent (after_look T config again r end)
    unfolding after_look return raise get_volume_by_id_in_zone ◌>>=◌
    looked-EndsAbsent again s (ok v) end h g = h end
    looked-EndsAbsent again s (err e) end h g = elim (Bool-cases (errors_is e Sentinel.not_found)) [
      | inl gone ↦ rw gone (found-Absent s (list_volumes T config zone_page s) e end refl gone g)
      | inr kept ↦ rw kept tt
    ]

    pub wait_volume_deleted-EndsAbsent :
        (rounds : ℕ) (s : Polling T) → EndsAbsent (wait_volume_deleted T config done rounds id s)
    unfolding wait_volume_deleted ◌>>=◌ attempt raise
    wait_volume_deleted-EndsAbsent zero s = tt
    wait_volume_deleted-EndsAbsent (suc rounds) s =
        looked-EndsAbsent (pause T config done >> wait_volume_deleted T config done rounds id) s
          (get_volume_by_id_in_zone T config id config.availability_zone s).0
          (get_volume_by_id_in_zone T config id config.availability_zone s).1
          (λ t.
            paused-EndsAbsent (wait_volume_deleted T config done rounds id) t
              (wait_volume_deleted-EndsAbsent rounds))
          refl

  after-EndsAbsent :
      (r : Result Unit) (t : Polling T) (rest : Run (Polling T) Unit)
      → ((u : Polling T) → EndsAbsent (rest u))
      → EndsAbsent (after (r, t) (λ u. rest))
  after-EndsAbsent (ok u) t rest h = h t
  after-EndsAbsent (err e) t rest h = tt

  -- Whatever the API replies and whenever the context is done: where `DeleteVolume` of the client
  -- succeeds, its last call was a listing of the volume's zone that either succeeded and had no
  -- volume of that identifier, or failed with the error that something was not found.
  pub delete_volume-EndsAbsent :
      (ctx : ℕ → Bool) (s : Polling T) → EndsAbsent (delete_volume T config ctx id s)
  unfolding delete_volume ◌>>=◌
  delete_volume-EndsAbsent ctx s =
      after-EndsAbsent _ _
        (λ t. wait_volume_deleted T config (within T config ctx t.elapsed 120_000) 61 id t)
        (λ t. wait_volume_deleted-EndsAbsent (within T config ctx t.elapsed 120_000) 61 t)
