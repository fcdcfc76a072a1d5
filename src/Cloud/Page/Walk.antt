-- ===== src/Cloud/Page/Walk.antt =====
-- Reading a listing page by page: a client that follows the tokens of `paginate`.
use nobus_csi.Common.{
  ℕ, zero, suc, ◌+◌, ◌≤◌, ◌<◌, ◌≡◌, refl, ◌≢◌, inl, inr, false, String, List, ◌++◌, Option, none,
  some, arith, ◌==◌, eq_iff, leb, if◌then◌else◌, Bool-cases,
}
use nobus_csi.Common.Lists.{length, take, drop, take-drop, drop-drop, drop-eq-nil}
use nobus_csi.Common.Int.{pos}
use nobus_csi.Common.Decimal.{itoa}
use nobus_csi.Common.Decimal.RoundTrip.{atoi-itoa, itoa-ne-empty}
use nobus_csi.Cloud.Errors.{Result, ok, err}
use nobus_csi.Cloud.Types.{Page}
use nobus_csi.Cloud.Page.{start_of, paginate}

abbrev page_at : String → ℕ → Page
page_at token size = record { token = token; size = pos size; name = ""; availability_zone = "" }

eq_empty_false : (s : String) → s ≢ "" → (s == "") ≡ false
eq_empty_false s h = ground (arith, eq_iff s "")

start_of-itoa : (k : ℕ) → k < 9_223_372_036_854_775_808 → start_of (itoa k) ≡ ok k
unfolding start_of
start_of-itoa k h = rw (eq_empty_false (itoa k) (itoa-ne-empty k h), atoi-itoa k h)

module _ {A : Type 0} where
  abbrev join_rest : List A → Option (List A) → Option (List A)
  join_rest xs none = none
  join_rest xs (some ys) = some (xs ++ ys)

  -- What the client does with a page: stop at an empty token, else read on.
  abbrev continue_with : (String → Option (List A)) → Result (List A × String) → Option (List A)
  continue_with more (err e) = none
  continue_with more (ok (xs, token)) =
      let rest = join_rest xs (more token) in if token == "" then some xs else rest

  -- All pages of a listing, from a token on; `none` where a page is refused or the fuel ends.
  pub read_pages : ℕ → ℕ → List A → String → Option (List A)
  read_pages zero size items token = none
  read_pages (suc fuel) size items token =
      continue_with (read_pages fuel size items) (paginate items (page_at token size))

  rejoin :
      (n k : ℕ) (items : List A)
      → take (suc n) (drop k items) ++ drop (k + suc n) items ≡ drop k items
  rejoin n k items = rw (← drop-drop k (suc n) items) (take-drop (suc n) (drop k items))

  read_pages_from :
      (fuel n k : ℕ) (items : List A) (token : String)
      → length items < 9_223_372_036_854_775_808
      → start_of token ≡ ok k
      → k ≤ length items
      → length items < k + fuel
      → read_pages fuel (suc n) items token ≡ some (drop k items)
  unfolding read_pages paginate
  read_pages_from zero n k items token small at within enough = absurd (omega arith)
  read_pages_from (suc fuel) n k items token small at within enough =
      rw at (elim (Bool-cases (leb (length items) k)) [
        | inl past ↦ rw past (rw (drop-eq-nil k items (ground arith)))
        | inr inside ↦ rw inside (elim (Bool-cases (leb (length items) (k + suc n))) [
          | inl last ↦ rw last
          | inr more ↦
              rw
                (
                  more,
                  eq_empty_false (itoa (k + suc n)) (itoa-ne-empty (k + suc n) (ground arith)),
                  read_pages_from fuel n (k + suc n) items (itoa (k + suc n)) small
                      (start_of-itoa (k + suc n) (ground arith)) (ground arith) (ground arith),
                )
                (rw (rejoin n k items))
        ])
      ])

  -- Reading a listing of fewer than 2^63 items page by page, with pages of any positive size, gives
  -- the whole listing in its order, and the client stops after at most one page more than the
  -- listing has items.
  pub read_pages-all :
      (n : ℕ) (items : List A)
      → length items < 9_223_372_036_854_775_808
      → read_pages (suc (length items)) (suc n) items "" ≡ some items
  unfolding start_of
  read_pages-all n items small =
      read_pages_from (suc (length items)) n 0 items "" small refl (omega arith) (omega arith)
