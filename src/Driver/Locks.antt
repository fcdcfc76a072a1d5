-- ===== src/Driver/Locks.antt =====
-- internal/driver/locks.go: the keys that are locked. The mutex makes each method one step.
pub mod Interleaving
pub mod Laws
use nobus_csi.Common.{Bool, true, false, String, Option, none, some, if◌then◌else◌}
use nobus_csi.Common.Assoc.{Assoc, lookup, insert, erase}

abbrev pub VolumeLocks : Type 0
VolumeLocks = Assoc (Unit {0})

-- A locked key is refused. The function that `TryLock` returns to the caller is `unlock`.
locked : Option (Unit {0}) → String → VolumeLocks → Option VolumeLocks
locked (some _) id l = none
locked none id l = some (insert id tt l)

unfoldable pub try_lock : String → VolumeLocks → Option VolumeLocks
unfolding locked
try_lock id l = locked (lookup id l) id l

unfoldable pub unlock : String → VolumeLocks → VolumeLocks
unlock id l = erase id l
