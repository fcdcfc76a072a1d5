-- ===== src/Pulumi/Client/Storage/Ready.antt =====
-- What the waits for a volume answer, and that their rounds are enough.
use nobus_csi.Common.{
  ℕ, ◌+◌, ◌≤◌, ◌<◌, ◌≡◌, true, String, List, [], ◌∷◌, none, some, ◌==◌, eq_iff, Bool-cases, inl,
  inr, if◌then◌else◌,
}
use nobus_csi.Pulumi.Client.Shapes.{Volume}
use nobus_csi.Pulumi.Client.Calls.{Transport, Session, Context, is_wanted}
use nobus_csi.Pulumi.Client.Calls.Forward.{Forward, forward_rules}
use nobus_csi.Pulumi.Client.Calls.Answers.{
  Given, Answers, Answers-lift, Answers-return, Answers-bind, Answers-every,
}
use nobus_csi.Pulumi.Client.Waits.{within, rounds, poll_until}
use nobus_csi.Pulumi.Client.Waits.Enough.{wait_until-enough}
use nobus_csi.Pulumi.Client.Waits.Success.{Found, wait_until-Answers}
use nobus_csi.Pulumi.Client.Storage.{
  find_volume, list_volumes, get_volume, look_for_status, wait_volume_status,
}

find_volume-id :
    (zone id : String) (vs : List Volume) → Given (λ v. v.id ≡ id) (find_volume zone id vs)
unfolding find_volume
find_volume-id zone id [] = tt
find_volume-id zone id (v ∷ vs) = elim (Bool-cases (v.id == id)) [
  | inl same ↦ rw same ((eq_iff v.id id).0 same)
  | inr other ↦ rw other (find_volume-id zone id vs)
]

module _ (T : Transport) (want : List String) (project zone id : String) where
  abbrev pub IsReady : Volume → Type 0
  IsReady v = (v.id ≡ id) × (is_wanted T want v.status ≡ true)

  get_volume-id : (ctx : Context) → Answers (λ v. v.id ≡ id) (get_volume T ctx project zone id)
  unfolding get_volume
  get_volume-id ctx =
      Answers-bind (λ _. Unit) (λ v. v.id ≡ id) (list_volumes T ctx project zone) _
        (Answers-every _) (λ vs _. Answers-lift _ _ (find_volume-id zone id vs))

  found :
      (v : Volume) → v.id ≡ id → Found IsReady (if is_wanted T want v.status then some v else none)
  found v e = elim (Bool-cases (is_wanted T want v.status)) [
    | inl wanted ↦ rw wanted (e, wanted)
    | inr other ↦ rw other tt
  ]

  look_for_status-Answers :
      (ctx : Context) → Answers (Found IsReady) (look_for_status T want project zone id ctx)
  unfolding look_for_status
  look_for_status-Answers ctx =
      Answers-bind (λ v. v.id ≡ id) (Found IsReady) (get_volume T ctx project zone id) _
        (get_volume-id ctx) (λ v e. Answers-return (Found IsReady) _ (found v e))

  -- A wait for a volume's status that answers a volume answers the one that was asked for, with one
  -- of the wanted statuses.
  pub wait_volume_status-IsReady :
      (poll : ℕ) (ctx : Context)
      → Answers IsReady (wait_volume_status T poll ctx project zone id want)
  unfolding wait_volume_status
  wait_volume_status-IsReady poll ctx =
      wait_until-Answers T poll IsReady (look_for_status T want project zone id) ctx 300_000
        look_for_status-Answers

  look_for_status-Forward : (ctx : Context) → Forward (look_for_status T want project zone id ctx)
  unfolding look_for_status get_volume list_volumes
  look_for_status-Forward ctx = search forward_rules

  -- However many more than its rounds a wait for a volume's status may poll, it answers the same and
  -- leaves the same state: its limit of five minutes ends it.
  pub wait_volume_status-enough :
      (poll more : ℕ) (ctx : Context) (s : Session T)
      → 0 < poll
      → rounds 300_000 poll ≤ more
      → poll_until T poll
          (within ctx (s.elapsed + 300_000))
          more
          (look_for_status T want project zone id)
          s
        ≡ wait_volume_status T poll ctx project zone id want s
  unfolding wait_volume_status
  wait_volume_status-enough poll more ctx s pos le =
      wait_until-enough T poll (look_for_status T want project zone id) look_for_status-Forward ctx
        300_000 more s pos le
