-- ===== src/Cloud/Client/Api/Sizes.antt =====
-- Sizes in bytes and in GiB.
use nobus_csi.Common.{ℕ, ◌+◌, ◌*◌, ◌/◌, ◌≤◌, ◌<◌, ◌≡◌, refl, arith}
use nobus_csi.Common.Int.{
  pos, negsuc, add64, mul64, quot64, wrap64, wrap64_pos, add64_pos, mul64_pos,
}
use nobus_csi.Cloud.Client.Api.{bytes_to_gib, bytes_per_gib}

less_one :
    (n : ℕ)
    → 1 ≤ n
    → n < 9_223_372_036_854_775_808
    → (m : ℕ) → m + 1 ≡ n
    → add64 (pos n) (negsuc 0) ≡ pos m
unfolding add64 wrap64
less_one n h k m e = ground arith

gib_of_bytes :
    (b : ℕ)
    → b + 1_073_741_824 < 9_223_372_036_854_775_808
    → bytes_to_gib (pos b) ≡ pos ((b + 1_073_741_823) / 1_073_741_824)
unfolding bytes_to_gib quot64
gib_of_bytes b h =
    rw
      (
        add64_pos b 1_073_741_824,
        wrap64_pos (b + 1_073_741_824) h,
        less_one (b + 1_073_741_824) (omega arith) h (b + 1_073_741_823) (omega arith),
      )
      refl

-- A number of bytes that is more than a GiB below 2^63 is asked of the API in GiB, and the size that
-- the client computes from that number of GiB is the least number of whole GiB that holds the bytes:
-- it is no smaller, and less than a GiB larger.
pub bytes_to_gib-covers :
    (b : ℕ)
    → b + 1_073_741_824 < 9_223_372_036_854_775_808
    → (n : ℕ) × (mul64 (bytes_to_gib (pos b)) bytes_per_gib ≡ pos n)
      × (b ≤ n)
      × (n < b + 1_073_741_824)
bytes_to_gib-covers b h = (
  (b + 1_073_741_823) / 1_073_741_824 * 1_073_741_824,
  rw (gib_of_bytes b h, mul64_pos ((b + 1_073_741_823) / 1_073_741_824) 1_073_741_824)
      (wrap64_pos ((b + 1_073_741_823) / 1_073_741_824 * 1_073_741_824) (omega arith)),
  omega arith,
  omega arith,
)
