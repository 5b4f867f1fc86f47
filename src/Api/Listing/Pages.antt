-- ===== src/Api/Listing/Pages.antt =====
-- The pages of `list_tasks_api` are the tasks of the caller, cut into pieces.
use packamal.Models.{AnalysisTask}
use packamal.Orm.{Orm}
use packamal.Api.Listing.{
  Listed, ListRequest, Item, rows_of, listed, list_tasks_api, item_of, suc, page_of, clamped,
}
use packamal.Prelude.{
  ℕ, List, take, map, [], ◌+◌, ◌≡◌, some, true, ◌++◌, ◌∷◌, ◌*◌, drop, zero, ap, refl, arith, sym,
  ◌∙◌,
}

plus : (n : ℕ) → 0 + n ≡ n
plus n = omega arith

plus_suc : (m n : ℕ) → suc m + n ≡ suc (m + n)
plus_suc m n = omega arith

module _ {ℓ} {A : Type ℓ} where
  abbrev nothing : List A
  nothing = []

  take-nil : (n : ℕ) → take n nothing ≡ nothing
  take-nil zero = refl
  take-nil (suc n) = refl

  take-add : (m n : ℕ) (xs : List A) → take (m + n) xs ≡ take m xs ++ take n (drop m xs)
  take-add zero n xs = ap (λ k. take k xs) (plus n)
  take-add (suc m) n [] = take-nil (suc m + n) ∙ sym (take-nil n)
  take-add (suc m) n (x ∷ xs) =
      ap (λ k. take k (x ∷ xs)) (plus_suc m n) ∙ ap (λ ys. x ∷ ys) (take-add m n xs)

map-append : (xs ys : List AnalysisTask) → map item_of (xs ++ ys) ≡ map item_of xs ++ map item_of ys
map-append [] ys = refl
map-append (x ∷ xs) ys = ap (λ zs. item_of x ∷ zs) (map-append xs ys)

abbrev pub items_of : Listed → List Item
items_of (listed items page page_size total) = items
items_of _ = []

none_yet : (size : ℕ) → 0 ≡ 0 * size
none_yet size = ground arith

next : (n size : ℕ) → n * size + size ≡ suc n * size
next n size = ground arith

module _ ⦃orm : Orm⦄ (request : ListRequest) (ts : List AnalysisTask) where
  -- The answer for a page.
  abbrev pub on_page : ℕ → Listed
  on_page n = list_tasks_api (record request { page = some n }) ts

  -- The items of the pages 1 to n, one after the other.
  abbrev pub first_pages : ℕ → List Item
  first_pages zero = []
  first_pages (suc n) = first_pages n ++ items_of (on_page (suc n))

  abbrev pub rows : List AnalysisTask
  rows = rows_of request.api_key request.status ts

  page_lem :
      (n size : ℕ)
      → request.is_get ≡ true
      → request.page_size ≡ some size
      → items_of (on_page (suc n))
        ≡ map item_of (take (clamped size) (drop (n * clamped size) rows))
  unfolding list_tasks_api page_of
  page_lem n size get s = rw (get, list_tasks_api) (rw s refl)

  pub list_tasks_api-pages :
      (n size : ℕ)
      → request.is_get ≡ true
      → request.page_size ≡ some size
      → first_pages n ≡ map item_of (take (n * clamped size) rows)
  list_tasks_api-pages zero size get s =
      ap (λ k. map item_of (take k rows)) (none_yet (clamped size))
  list_tasks_api-pages (suc n) size get s =
      rw (list_tasks_api-pages n size get s, page_lem n size get s)
        (sym (map-append (take (n * clamped size) rows) _)
          ∙ ap (map item_of) (
              sym (take-add (n * clamped size) (clamped size) rows)
              ∙ ap (λ k. take k rows) (next n (clamped size))))
