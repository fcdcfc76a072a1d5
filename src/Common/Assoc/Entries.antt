-- ===== src/Common/Assoc/Entries.antt =====
-- A predicate on every entry of a map.
use Prim.Native.String.{String}
use mathlib.Core.Path.{◌≡◌, transport}
use mathlib.Core.Option.{Option, none, some}
use mathlib.Core.List.{[], ◌∷◌}
use text.Mathlib.Text.{◌==◌}
use text.Mathlib.TextEquality.{eq_iff}
use mathlib.Core.Logic.{inl, inr}
use nobus_csi.Common.Tests.{Bool-cases}
use nobus_csi.Common.Assoc.{Assoc, lookup, insert, erase}

module _ {ℓ κ} {V : Type ℓ} (P : String → V → Type κ) where
  abbrev pub Entries : Assoc V → Type κ
  Entries [] = Unit
  Entries ((k, v) ∷ m) = P k v × Entries m

  pub insert-Entries :
      (k : String) (v : V) (m : Assoc V) → P k v → Entries m → Entries (insert k v m)
  insert-Entries k v [] p h = (p, tt)
  insert-Entries k v ((j, w) ∷ m) p h = elim (Bool-cases (j == k)) [
    | inl e ↦ rw e (p, h.1)
    | inr n ↦ rw n (h.0, insert-Entries k v m p h.1)
  ]

  pub erase-Entries : (k : String) (m : Assoc V) → Entries m → Entries (erase k m)
  erase-Entries k [] h = tt
  erase-Entries k ((j, w) ∷ m) h = elim (Bool-cases (j == k)) [
    | inl e ↦ rw e (erase-Entries k m h.1)
    | inr n ↦ rw n (h.0, erase-Entries k m h.1)
  ]

  -- What a look-up finds.
  abbrev pub Found : String → Option V → Type κ
  Found k none = Unit
  Found k (some v) = P k v

  at_key : (j k : String) (v : V) → j ≡ k → P j v → P k v
  at_key j k v e p = transport (λ i. P (e i) v) p

  pub lookup-Entries : (k : String) (m : Assoc V) → Entries m → Found k (lookup k m)
  lookup-Entries k [] h = tt
  lookup-Entries k ((j, w) ∷ m) h = elim (Bool-cases (j == k)) [
    | inl e ↦ rw e (at_key j k w ((eq_iff j k).0 e) h.0)
    | inr n ↦ rw n (lookup-Entries k m h.1)
  ]
