-- ===== src/Driver/Locks/Interleaving.antt =====
-- Handlers that run at once: any interleaving of the calls that lock and unlock one table.
use nobus_csi.Common.{
  ℕ, suc, ◌≤◌, ◌≡◌, refl, ◌↔◌, String, List, [], ◌∷◌, ◌++◌, Option, none, some, arith, ◌==◌, eq_iff,
  if◌then◌else◌, Option-cases, inl, inr,
}
use nobus_csi.Common.Assoc.{lookup, lookup-insert, lookup-erase}
use nobus_csi.Driver.Locks.{VolumeLocks, locked, try_lock, unlock}

-- The keys of the handlers that were let in and have not returned, beside the table.
abbrev pub Handlers : Type 0
Handlers = VolumeLocks × List String

-- A handler is let in, is refused, or returns.
pub data Step : Handlers → Handlers → Type 0 where
  enter :
      (id : String) (l m : VolumeLocks) (held : List String)
      → try_lock id l ≡ some m
      → Step (l, held) (m, id ∷ held)
  refuse :
      (id : String) (l : VolumeLocks) (held : List String)
      → try_lock id l ≡ none
      → Step (l, held) (l, held)
  leave :
      (id : String) (l : VolumeLocks) (before after : List String)
      → Step (l, before ++ id ∷ after) (unlock id l, before ++ after)

pub data Reached : Handlers → Type 0 where
  start : Reached ([], [])
  next : {h k : Handlers} → Reached h → Step h k → Reached k

-- How many of the handlers hold the key.
abbrev pub count : String → List String → ℕ
count id [] = 0
count id (j ∷ held) = let rest = count id held in if j == id then suc rest else rest

count-leave :
    (j id : String) (before after : List String)
    → count j (before ++ id ∷ after)
      ≡ (if id == j then suc (count j (before ++ after)) else count j (before ++ after))
count-leave j id [] after = refl
count-leave j id (k ∷ before) after = ground (arith, count-leave j id before after)

-- Whether the table has the key, as a number.
abbrev recorded : Option (Unit {0}) → ℕ
recorded none = 0
recorded (some u) = 1

recorded_le : (o : Option (Unit {0})) → recorded o ≤ 1
recorded_le none = omega arith
recorded_le (some u) = omega arith

abbrev Agrees : Handlers → Type 0
Agrees (l, held) = (id : String) → count id held ≡ recorded (lookup id l)

enter-Agrees :
    (id : String) (l m : VolumeLocks) (held : List String)
    → try_lock id l ≡ some m
    → Agrees (l, held)
    → Agrees (m, id ∷ held)
unfolding try_lock locked
enter-Agrees id l m held h a j = ground (arith, lookup-insert id j tt l, a j, a id, eq_iff id j)

leave-Agrees :
    (id : String) (l : VolumeLocks) (before after : List String)
    → Agrees (l, before ++ id ∷ after)
    → Agrees (unlock id l, before ++ after)
unfolding unlock
leave-Agrees id l before after a j = ground (
  arith,
  lookup-erase id j l,
  count-leave j id before after,
  a j,
  eq_iff id j,
  recorded_le (lookup j l),
)

Step-Agrees : {h k : Handlers} → Step h k → Agrees h → Agrees k
Step-Agrees (enter id l m held e) a = enter-Agrees id l m held e a
Step-Agrees (refuse id l held e) a = a
Step-Agrees (leave id l before after) a = leave-Agrees id l before after a

Reached-Agrees : {h : Handlers} → Reached h → Agrees h
Reached-Agrees start = λ id. refl
Reached-Agrees (next r step) = Step-Agrees step (Reached-Agrees r)

-- Whatever the interleaving of handlers that lock and unlock a table, at most one of those that were
-- let in and have not returned holds a key.
pub try_lock-exclusive :
    (l : VolumeLocks) (held : List String) (id : String) → Reached (l, held) → count id held ≤ 1
try_lock-exclusive l held id r = omega (arith, Reached-Agrees r id, recorded_le (lookup id l))

-- Whatever the interleaving, a key is refused only while one of the handlers holds it, so that a key
-- is free again once the handler that held it has returned.
pub try_lock-free :
    (l : VolumeLocks) (held : List String) (id : String)
    → Reached (l, held)
    → (try_lock id l ≡ none) ↔ (count id held ≡ 1)
unfolding try_lock locked
try_lock-free l held id r = elim (Option-cases (lookup id l)) [
  | inl free ↦ ground (arith, Reached-Agrees r id)
  | inr (u, taken) ↦ ground (arith, Reached-Agrees r id)
]
