-- ===== src/Driver/Volumes/Reconcile/Rounds.antt =====
-- How long `reconcileCreatedVolume` waits between its looks.
use nobus_csi.Common.{not, ℕ, zero, suc, ◌+◌, ◌*◌, ◌≤◌, Bool, String, List, [], ◌∷◌}
use nobus_csi.Cloud.Errors.{Result, ok, err}
use nobus_csi.Cloud.Types.{VolumeSpec, Volume}
use nobus_csi.Cloud.Interface.{Run, Cloud}
use nobus_csi.Driver.Session.{Session}
use nobus_csi.Driver.Session.Elapsed.{
  Waits, waits_rules, Waits-bind, Waits-bind_sum, Waits-wait, Waits-attempt, Waits-if,
}
use nobus_csi.Driver.Volumes.Reconcile.{
  deletable_duplicate_volume, continue_after, delete_duplicates, keep_first,
  reconcile_volume_by_name, reconcile_created_volume, sample_rounds, after_sample, last_sample,
}

-- The sum of the delays, each twice the one before.
abbrev delays : ℕ → ℕ → ℕ
delays zero delay = 0
delays (suc rounds) delay = delay + delays rounds (delay * 2)

module _ (C : Cloud) where
  continue_after-Waits :
      (rest : Run (Session C) Unit) (r : Result Unit)
      → Waits 0 rest
      → Waits 0 (continue_after C rest r)
  unfolding continue_after
  continue_after-Waits rest (ok u) h = h
  continue_after-Waits rest (err e) h = search waits_rules

  delete_duplicates-Waits : (ds : List Volume) → Waits 0 (delete_duplicates C ds)
  unfolding delete_duplicates
  delete_duplicates-Waits [] = search waits_rules
  delete_duplicates-Waits (d ∷ ds) =
      Waits-if (not (deletable_duplicate_volume d)) _ _ (delete_duplicates-Waits ds) (
        Waits-bind _ _ (search waits_rules)
          (λ r. continue_after-Waits (delete_duplicates C ds) r (delete_duplicates-Waits ds)))

  keep_first-Waits : (vs : List Volume) → Waits 0 (keep_first C vs)
  unfolding keep_first
  keep_first-Waits [] = search waits_rules
  keep_first-Waits (v ∷ ds) = search (waits_rules, delete_duplicates-Waits)

  pub reconcile_volume_by_name-Waits :
      (spec : VolumeSpec) → Waits 0 (reconcile_volume_by_name C spec)
  unfolding reconcile_volume_by_name
  reconcile_volume_by_name-Waits spec = search (waits_rules, keep_first-Waits)

  module _ (ctx : ℕ → Bool) (spec : VolumeSpec) where
    last_sample-Waits : (r : Result Volume) → Waits 0 (last_sample C ctx spec r)
    unfolding last_sample
    last_sample-Waits (ok v) = search waits_rules
    last_sample-Waits (err e) = search waits_rules

    after_sample-Waits :
        (more : String → ℕ → ℕ → Run (Session C) Volume) (previous : String) (stable delay n : ℕ)
        (r : Result Volume)
        → ((p : String) (k : ℕ) → Waits n (more p k (delay * 2)))
        → Waits (delay + n) (after_sample C ctx spec more previous stable delay r)
    unfolding after_sample
    after_sample-Waits more previous stable delay n (ok v) h =
        search (waits_rules, Waits-bind_sum, Waits-wait, h)
    after_sample-Waits more previous stable delay n (err e) h =
        search (waits_rules, Waits-bind_sum, Waits-wait, h)

    sample_rounds-Waits :
        (rounds : ℕ) (previous : String) (stable delay : ℕ)
        → Waits (delays rounds delay) (sample_rounds C ctx spec rounds previous stable delay)
    unfolding sample_rounds
    sample_rounds-Waits zero previous stable delay =
        search (waits_rules, reconcile_volume_by_name-Waits, last_sample-Waits)
    sample_rounds-Waits (suc rounds) previous stable delay =
        Waits-bind _ _ (Waits-attempt _ (reconcile_volume_by_name-Waits spec)) (λ seen.
          after_sample-Waits (sample_rounds C ctx spec rounds) previous stable delay
            (delays rounds (delay * 2)) seen (λ p k. sample_rounds-Waits rounds p k (delay * 2)))

    -- However the provider and the context behave, the loop that looks for a created volume ends,
    -- with a volume or an error, and the delays of its rounds add up to at most 12.7 seconds.
    pub reconcile_created_volume-Waits :
        (s : Session C) → (reconcile_created_volume C ctx spec s).1.elapsed ≤ s.elapsed + 12700
    unfolding reconcile_created_volume
    reconcile_created_volume-Waits s = (sample_rounds-Waits 7 "" 0 100).at s
