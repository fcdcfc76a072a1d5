-- ===== src/Cloud/Page.antt =====
-- `paginate` of internal/cloud/client.go. Both providers cut their sorted listings with it.
pub mod Walk
use nobus_csi.Common.{ℕ, zero, suc, ◌+◌, String, Bool, ◌||◌, List, [], ◌∷◌, Option, none, some}
use nobus_csi.Common.{◌==◌, leb, if◌then◌else◌}
use nobus_csi.Common.Lists.{length, take, drop}
use nobus_csi.Common.Int.{ℤ, pos, negsuc}
use nobus_csi.Common.Decimal.{itoa, atoi}
use nobus_csi.Cloud.Errors.{Result, ok, err, sentinel, Sentinel}
use nobus_csi.Cloud.Types.{Page}

-- Where a page starts: a token that is no number, or a negative one, is refused.
start_of : String → Result ℕ
start_of token = if token == "" then ok 0 else elim (atoi token) [
  | none ↦ err (sentinel Sentinel.invalid)
  | some (pos n) ↦ ok n
  | some (negsuc n) ↦ err (sentinel Sentinel.invalid)
]

module _ {A : Type 0} where
  -- `items[start:]`, cut at the page's size if that is positive and something is left behind it.
  -- A size comes from a 32-bit field, so the sum does not wrap.
  cut_page : List A → ℕ → ℤ → List A × String
  cut_page items start (negsuc n) = (drop start items, "")
  cut_page items start (pos zero) = (drop start items, "")
  cut_page items start (pos (suc n)) =
      let next = start + suc n in
      if leb (length items) next
      then (drop start items, "")
      else (take (suc n) (drop start items), itoa next)

  slice_page : List A → ℤ → Result ℕ → Result (List A × String)
  unfolding cut_page
  slice_page items size (err e) = err e
  slice_page items size (ok start) =
      if leb (length items) start then ok ([], "") else ok (cut_page items start size)

  unfoldable pub paginate : List A → Page → Result (List A × String)
  unfolding start_of slice_page
  paginate items page = slice_page items page.size (start_of page.token)
