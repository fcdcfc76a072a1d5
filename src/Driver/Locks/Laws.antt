-- ===== src/Driver/Locks/Laws.antt =====
-- Locking and unlocking one key.
use nobus_csi.Common.{◌≡◌, String, some, arith}
use nobus_csi.Common.Assoc.{lookup-insert, erase-insert}
use nobus_csi.Driver.Locks.{VolumeLocks, locked, try_lock, unlock}

-- Where a key is locked, unlocking it gives back the table from before.
pub unlock-try_lock : (id : String) (l m : VolumeLocks) → try_lock id l ≡ some m → unlock id m ≡ l
unfolding try_lock unlock locked
unlock-try_lock id l m h = ground (arith, erase-insert id tt l, lookup-insert id id tt l)
