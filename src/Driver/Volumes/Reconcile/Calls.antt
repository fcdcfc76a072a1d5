-- ===== src/Driver/Volumes/Reconcile/Calls.antt =====
-- Which volumes the reconciliation deletes. `logged` is a provider with a record of the identifiers
-- that `DeleteVolume` was called with, the latest first.
use nobus_csi.Common.{
  ℕ, ◌≡◌, refl, inl, inr, true, not, ◌&&◌, String, List, [], ◌∷◌, ◌==◌, eq_iff, Bool-cases,
}
use nobus_csi.Common.Lists.{All, drop}
use mathlib.Core.List.{Perm, perm_middle, ◌++◌}
use mathlib.Core.List.Perm
use nobus_csi.Common.Text.{le_text}
use nobus_csi.Common.Sort.{sort_by, IsSorted, sort_by-All, sort_by-IsSorted, sort_by-perm}
use nobus_csi.Cloud.Errors.{Sentinel, errors_is, Result, ok, err}
use nobus_csi.Cloud.Types.{VolumeSpec, Volume}
use nobus_csi.Cloud.Interface.{Run, Cloud}
use nobus_csi.Driver.Status.Laws.{Any, Holds}
use nobus_csi.Driver.Session.{Session, return, raise, call, lift, ◌>>=◌, after}
use nobus_csi.Driver.Volumes.Reconcile.{
  compatible_volume, compatible_volumes, deletable_duplicate_volume, continue_after,
  delete_duplicates, keep_first, named_page, reconcile_volume_by_name, add_volume,
}

abbrev pub logged : Cloud → Cloud
logged C = record {
  State = C.State × List String;
  create_volume = λ spec (s, log). let (r, s') = C.create_volume spec s in (r, (s', log));
  get_volume_by_id = λ id (s, log). let (r, s') = C.get_volume_by_id id s in (r, (s', log));
  list_volumes = λ page (s, log). let (r, s') = C.list_volumes page s in (r, (s', log));
  delete_volume = λ id (s, log). let (r, s') = C.delete_volume id s in (r, (s', id ∷ log));
  resize_volume =
      λ id size zone (s, log). let (r, s') = C.resize_volume id size zone s in (r, (s', log));
  attach_volume =
      λ id node zone (s, log). let (r, s') = C.attach_volume id node zone s in (r, (s', log));
  detach_volume =
      λ id node zone (s, log). let (r, s') = C.detach_volume id node zone s in (r, (s', log));
  create_snapshot = λ spec (s, log). let (r, s') = C.create_snapshot spec s in (r, (s', log));
  delete_snapshot = λ id zone (s, log). let (r, s') = C.delete_snapshot id zone s in (r, (s', log));
  list_snapshots = λ page (s, log). let (r, s') = C.list_snapshots page s in (r, (s', log));
  get_instance_metadata = λ (s, log). let (r, s') = C.get_instance_metadata s in (r, (s', log));
}

module _ (C : Cloud) (P : String → Type 0) where
  abbrev Logged : Session (logged C) → Type 0
  Logged s = All P s.store.1

  -- The state once `DeleteVolume` was called.
  abbrev deleted : String → Session (logged C) → Session (logged C)
  deleted id s = record {
    store = ((C.delete_volume id s.store.0).1, id ∷ s.store.1);
    elapsed = s.elapsed;
  }

  continue_after-Logged :
      (rest : Run (Session (logged C)) Unit) (r : Result Unit) (s : Session (logged C))
      → ((t : Session (logged C)) → Logged t → Logged (rest t).1)
      → Logged s
      → Logged (continue_after (logged C) rest r s).1
  unfolding continue_after ◌>>=◌
  continue_after-Logged rest (ok u) s h l = h s l
  continue_after-Logged rest (err e) s h l =
      elim (Bool-cases
        (not (errors_is e Sentinel.not_found) && not (errors_is e Sentinel.conflict))) [
          | inl b ↦ rw b l
          | inr b ↦ rw b (h s l)
        ]

  delete_duplicates-Logged :
      (ds : List Volume) (s : Session (logged C))
      → All (λ (d : Volume). deletable_duplicate_volume d ≡ true → P d.id) ds
      → Logged s
      → Logged (delete_duplicates (logged C) ds s).1
  unfolding delete_duplicates ◌>>=◌ call
  delete_duplicates-Logged [] s h l = l
  delete_duplicates-Logged (d ∷ ds) s h l = elim (Bool-cases (deletable_duplicate_volume d)) [
    | inl deletable ↦ rw deletable (
        continue_after-Logged (delete_duplicates (logged C) ds) (C.delete_volume d.id s.store.0).0
          (deleted d.id s) (λ t k. delete_duplicates-Logged ds t h.1 k) (h.0 deletable, l))
    | inr kept ↦ rw kept (delete_duplicates-Logged ds s h.1 l)
  ]

  returned-Logged :
      (r : Result Unit) (v : Volume) (s : Session (logged C))
      → Logged s
      → Logged (after (r, s) (λ u. return v)).1
  unfolding return
  returned-Logged (ok u) v s l = l
  returned-Logged (err e) v s l = l

  keep_first-Logged :
      (vs : List Volume) (s : Session (logged C))
      → All (λ (d : Volume). deletable_duplicate_volume d ≡ true → P d.id) (drop 1 vs)
      → Logged s
      → Logged (keep_first (logged C) vs s).1
  unfolding keep_first ◌>>=◌ raise return
  keep_first-Logged [] s h l = l
  keep_first-Logged (v ∷ ds) s h l =
      returned-Logged (delete_duplicates (logged C) ds s).0 v (delete_duplicates (logged C) ds s).1
        (delete_duplicates-Logged ds s h l)

-- The volumes that a call listed.
abbrev pub volumes_of : Result (List Volume × String) → List Volume
volumes_of (ok (vs, token)) = vs
volumes_of (err e) = []

-- The volume has the name and the parameters of the specification.
abbrev pub Fits : VolumeSpec → Volume → Type 0
Fits spec v = (v.name ≡ spec.name) × (compatible_volume v spec ≡ true)

-- The identifier is that of a fitting volume which nothing uses. Another entry of the listing is a
-- fitting volume too, and its identifier does not come later.
abbrev pub Redundant : VolumeSpec → List Volume → String → Type 0
Redundant spec listed id =
    (d : Volume) × (kept : Volume) × (others : List Volume) × Perm listed (kept ∷ d ∷ others)
    × (d.id ≡ id)
    × Fits spec d
    × Fits spec kept
    × (le_text kept.id d.id ≡ true)
    × (deletable_duplicate_volume d ≡ true)

-- The volumes fit, and they are entries of the listing beside others.
abbrev Chosen : VolumeSpec → List Volume → List Volume → Type 0
Chosen spec listed vs = All (Fits spec) vs × (others : List Volume) × Perm listed (vs ++ others)

add_volume-Chosen :
    (spec : VolumeSpec) (v : Volume) (listed : List Volume) (r : Result (List Volume))
    → Fits spec v
    → Holds (Chosen spec listed) Any r
    → Holds (Chosen spec (v ∷ listed)) Any (add_volume v r)
add_volume-Chosen spec v listed (ok vs) f (h, others, p) = ((f, h), others, Perm.cons v p)
add_volume-Chosen spec v listed (err e) f h = tt

skip_volume-Chosen :
    (spec : VolumeSpec) (v : Volume) (listed : List Volume) (r : Result (List Volume))
    → Holds (Chosen spec listed) Any r
    → Holds (Chosen spec (v ∷ listed)) Any r
skip_volume-Chosen spec v listed (ok vs) (h, others, p) =
    (h, v ∷ others, Perm.trans (Perm.cons v p) (Perm.symm (perm_middle vs others)))
skip_volume-Chosen spec v listed (err e) h = tt

compatible_volumes-Chosen :
    (spec : VolumeSpec) (vs : List Volume) → Holds (Chosen spec vs) Any (compatible_volumes spec vs)
unfolding compatible_volumes
compatible_volumes-Chosen spec [] = (tt, [], Perm.refl [])
compatible_volumes-Chosen spec (v ∷ vs) = elim (Bool-cases (v.name == spec.name)) [
  | inl named ↦ elim (Bool-cases (compatible_volume v spec)) [
    | inl fits ↦
        rw (named, fits)
          (add_volume-Chosen spec v vs (compatible_volumes spec vs)
            ((eq_iff v.name spec.name).0 named, fits) (compatible_volumes-Chosen spec vs))
    | inr other ↦ rw (named, other) tt
  ]
  | inr other ↦ rw other (
      skip_volume-Chosen spec v vs (compatible_volumes spec vs) (compatible_volumes-Chosen spec vs))
]

sort_by-Chosen :
    (spec : VolumeSpec) (listed vs : List Volume)
    → Chosen spec listed vs
    → Chosen spec listed (sort_by (λ (v : Volume). v.id) vs)
sort_by-Chosen spec listed vs (h, others, p) = (
  sort_by-All (λ (v : Volume). v.id) (Fits spec) vs h,
  others,
  Perm.trans p (Perm.append_right others (Perm.symm (sort_by-perm (λ (v : Volume). v.id) vs))),
)

module _ (spec : VolumeSpec) (listed : List Volume) where
  -- Behind the first of sorted volumes, all that may be deleted are redundant.
  rest-Redundant :
      (kept : Volume) (ds others : List Volume)
      → Perm listed (kept ∷ (ds ++ others))
      → Fits spec kept
      → All (Fits spec) ds
      → All (λ d. le_text kept.id d.id ≡ true) ds
      → All (λ (d : Volume). deletable_duplicate_volume d ≡ true → Redundant spec listed d.id) ds
  rest-Redundant kept [] others p k h l = tt
  rest-Redundant kept (d ∷ ds) others p k h l = (
    λ idle. (d, kept, ds ++ others, p, refl, h.0, k, l.0, idle),
    rest-Redundant kept ds (d ∷ others)
        (Perm.trans p (Perm.cons kept (Perm.symm (perm_middle ds others)))) k h.1 l.1,
  )

  tail-Redundant :
      (vs : List Volume)
      → Chosen spec listed vs
      → IsSorted (λ (v : Volume). v.id) vs
      → All
          (λ (d : Volume). deletable_duplicate_volume d ≡ true → Redundant spec listed d.id)
          (drop 1 vs)
  tail-Redundant [] h s = tt
  tail-Redundant (v ∷ vs) (h, others, p) s = rest-Redundant v vs others p h.0 h.1 s.0

  module _ (C : Cloud) where
    kept-Logged :
        (r : Result (List Volume)) (s : Session (logged C))
        → Holds (Chosen spec listed) Any r
        → All (Redundant spec listed) s.store.1
        → All
            (Redundant spec listed)
            (after
              (r, s)
              (λ vs. keep_first (logged C) (sort_by (λ (v : Volume). v.id) vs))).1.store.1
    kept-Logged (ok vs) s h l =
        keep_first-Logged C (Redundant spec listed) (sort_by (λ (v : Volume). v.id) vs) s
          (tail-Redundant (sort_by (λ (v : Volume). v.id) vs) (sort_by-Chosen spec listed vs h)
            (sort_by-IsSorted (λ (v : Volume). v.id) vs))
          l
    kept-Logged (err e) s h l = l

module _ (C : Cloud) (spec : VolumeSpec) (s : C.State) (elapsed : ℕ) where
  abbrev listing : Result (List Volume × String) × C.State
  listing = C.list_volumes (named_page spec.name spec.availability_zone) s

  -- Every volume that the reconciliation calls `DeleteVolume` for was listed under the
  -- specification's name, is compatible with the specification, has no attachment and is not in
  -- use, and another entry of the listing has the name, is compatible too, and has an identifier
  -- that does not come after its own; this holds whether the reconciliation returns a volume or
  -- fails.
  pub reconcile_volume_by_name-Redundant :
      All
        (Redundant spec (volumes_of listing.0))
        (reconcile_volume_by_name
          (logged C)
          spec
          (record { store = (s, []); elapsed = elapsed })).1.store.1
  unfolding reconcile_volume_by_name ◌>>=◌ call lift
  reconcile_volume_by_name-Redundant = go listing
    where
      go :
          (r : Result (List Volume × String) × C.State)
          → All
              (Redundant spec (volumes_of r.0))
              (after
                (r.0, record { store = (r.1, []); elapsed = elapsed })
                (λ l. lift (compatible_volumes spec l.0) >>= λ vs.
                  keep_first (logged C) (sort_by (λ (v : Volume). v.id) vs))).1.store.1
      go (ok (vs, token), t) =
          kept-Logged spec vs C (compatible_volumes spec vs)
            (record { store = (t, []); elapsed = elapsed }) (compatible_volumes-Chosen spec vs) tt
      go (err e, t) = tt
