-- ===== src/Admin/Complete.antt =====
-- The loop over the pages of categories ends, and leaves none out.
use restaurant_ordering_anal.Base.{
  ℕ, zero, suc, ◌+◌, ◌≤◌, ◌<◌, ◌≡◌, Bool, List, ◌++◌, Option, none, some, JsString, length,
  length-append, leb, ok, throw, arith, refl, Outcome-cases, Bool-cases, inl, inr, subst,
}
use restaurant_ordering_anal.Api.Config.{Url}
use restaurant_ordering_anal.Api.Exchange.{World, Sent}
use restaurant_ordering_anal.Admin.Client.{get_method}
use restaurant_ordering_anal.Admin.Categories.{
  AdminCategory, AdminCategoryListResponse, all_category_page_limit, max_category_pages,
  category_page_path, fetch_admin_categories, after_page, fetch_pages, fetch_all_admin_categories,
}
use restaurant_ordering_anal.Admin.Sent.{admin_request_json_sound}

module _ (parse_path : JsString → Option Url) (is_date : JsString → Bool) (token : JsString)
    (w : ℕ → World) where
  abbrev page_at : ℕ → ℕ → Sent AdminCategoryListResponse
  page_at page offset =
      fetch_admin_categories parse_path is_date token (w page) all_category_page_limit offset

  -- Consecutive pages from an offset on: each but the last has a category and ends before the total
  -- that it reports, and the last one reaches it.
  pub data Pages : ℕ → ℕ → List AdminCategory → Type 0 where
    last :
        (page offset : ℕ) (r : AdminCategoryListResponse)
        → (page_at page offset).1 ≡ ok r
        → r.total ≤ offset + length r.items
        → Pages page offset r.items
    more :
        (page offset : ℕ) (r : AdminCategoryListResponse) (rest : List AdminCategory)
        → (page_at page offset).1 ≡ ok r
        → 1 ≤ length r.items
        → offset + length r.items < r.total
        → Pages (suc page) (offset + length r.items) rest
        → Pages page offset (r.items ++ rest)

  page-once : (page offset : ℕ) → length (page_at page offset).0 ≤ 1
  unfolding fetch_admin_categories
  page-once page offset =
      (admin_request_json_sound (w page) parse_path
        (category_page_path all_category_page_limit offset) get_method (some token) none none).1

  after_page-length :
      (left offset : ℕ) (s : Sent AdminCategoryListResponse) (next : ℕ → Sent (List AdminCategory))
      → length s.0 ≤ 1
      → ((o : ℕ) → length (next o).0 ≤ left)
      → length (after_page parse_path is_date token offset s next).0 ≤ suc left
  after_page-length left offset (requests, throw e) next h k = omega arith
  after_page-length left offset (requests, ok r) next h k = ground (
    arith,
    h,
    k (offset + length r.items),
    length-append requests (next (offset + length r.items)).0,
  )

  fetch_pages-length :
      (left page offset : ℕ)
      → length (fetch_pages parse_path is_date token w left page offset).0 ≤ left
  unfolding fetch_pages
  fetch_pages-length zero page offset = omega arith
  fetch_pages-length (suc left) page offset =
      after_page-length left offset (page_at page offset) _ (page-once page offset)
        (fetch_pages-length left (suc page))

  after_page-Pages :
      (page offset : ℕ) (s : Sent AdminCategoryListResponse) (next : ℕ → Sent (List AdminCategory))
      (cs : List AdminCategory)
      → (page_at page offset).1 ≡ s.1
      → ((o : ℕ) (rest : List AdminCategory) → (next o).1 ≡ ok rest → Pages (suc page) o rest)
      → (after_page parse_path is_date token offset s next).1 ≡ ok cs
      → Pages page offset cs
  after_page-Pages page offset (requests, throw e) next cs s k h = absurd (cc)
  after_page-Pages page offset (requests, ok r) next cs s k h =
      let reached = offset + length r.items in
      elim (Bool-cases (leb r.total reached)) [
        | inl e ↦
            let all_of_it : r.items ≡ cs = ground arith in
            subst (Pages page offset) all_of_it (last page offset r s (ground arith))
        | inr e ↦ elim (Outcome-cases (next reached).1) [
          | inl (x, failed) ↦ absurd (ground arith)
          | inr (rest, f) ↦
              let joined : r.items ++ rest ≡ cs = ground arith in
              subst (Pages page offset) joined
                (more page offset r rest s (ground arith) (ground arith) (k reached rest f))
        ]
      ]

  fetch_pages-Pages :
      (left page offset : ℕ) (cs : List AdminCategory)
      → (fetch_pages parse_path is_date token w left page offset).1 ≡ ok cs
      → Pages page offset cs
  unfolding fetch_pages
  fetch_pages-Pages zero page offset cs h = absurd (cc)
  fetch_pages-Pages (suc left) page offset cs h =
      after_page-Pages page offset (page_at page offset) _ cs refl
        (fetch_pages-Pages left (suc page)) h

  -- However the network answers, fetching all categories ends after at most 100 requests.
  pub fetch_all_admin_categories-length :
      length (fetch_all_admin_categories parse_path is_date token w).0 ≤ max_category_pages
  unfolding fetch_all_admin_categories
  fetch_all_admin_categories-length = fetch_pages-length max_category_pages 0 0

  -- Where fetching all categories succeeds, its result is the concatenation of accepted pages, each of which
  -- starts where the one before it ended, the first at 0; each but the last has a category and ends
  -- before the total it reports, and the last reaches the total that it reports.
  pub fetch_all_admin_categories-Pages :
      (cs : List AdminCategory)
      → (fetch_all_admin_categories parse_path is_date token w).1 ≡ ok cs
      → Pages 0 0 cs
  unfolding fetch_all_admin_categories
  fetch_all_admin_categories-Pages cs h = fetch_pages-Pages max_category_pages 0 0 cs h
