-- ===== src/Api/Pagination/Pages.antt =====
-- What pages of `limit` rows show of all rows, and which parameters are accepted.
use mathlib.Core.Option.{none}
use mathlib.Core.List.{append-nil}
use Prim.Native.Nat.{zero}
use predict_iq.Api.Pagination.{
  from_fetched, validate_pagination, ◌∷◌, last, PaginationParams, ValidatedPagination, valid,
  default_limit, max_page_limit, map_cursor, some,
}
use predict_iq.Prelude.{
  ℕ, List, take, length, ◌<◌, Bool, ◌++◌, suc, ◌≤◌, ◌≡◌, is_some, drop, min, ap, arith, [], true,
  ltb, refl, dec_lt, get_or, Option,
}

module _ {T : Type 0} where
  take-append-drop : (n : ℕ) (xs : List T) → take n xs ++ drop n xs ≡ xs
  take-append-drop zero xs = refl
  take-append-drop (suc n) [] = refl
  take-append-drop (suc n) (x ∷ xs) = ap (λ r. x ∷ r) (take-append-drop n xs)

  take-take : (n : ℕ) (xs : List T) → take n (take (suc n) xs) ≡ take n xs
  take-take zero xs = refl
  take-take (suc n) [] = refl
  take-take (suc n) (x ∷ xs) = ap (λ r. x ∷ r) (take-take n xs)

  take_few : (n : ℕ) (xs : List T) → length xs ≤ n → take (suc n) xs ≡ xs
  take_few n [] h = refl
  take_few zero (x ∷ xs) h = absurd (omega arith)
  take_few (suc n) (x ∷ xs) h = ap (λ r. x ∷ r) (take_few n xs (omega arith))

  length-take : (n : ℕ) (xs : List T) → length (take n xs) ≡ min n (length xs)
  length-take zero xs = omega arith
  length-take (suc n) [] = omega arith
  length-take (suc n) (x ∷ xs) = omega (arith, length-take n xs)

  drop_few : (n : ℕ) (xs : List T) → length xs ≤ n → drop n xs ≡ []
  drop_few zero [] h = refl
  drop_few zero (x ∷ xs) h = absurd (omega arith)
  drop_few (suc n) [] h = refl
  drop_few (suc n) (x ∷ xs) h = drop_few n xs (omega arith)

  last_exists : (xs : List T) → 0 < length xs → is_some (last xs) ≡ true
  last_exists [] h = absurd (omega arith)
  last_exists (x ∷ []) h = refl
  last_exists (x ∷ y ∷ xs) h = last_exists (y ∷ xs) (omega arith)

  cursor_exists :
      (make_cursor : T → List ℕ) (o : Option T)
      → is_some o ≡ true
      → is_some (map_cursor make_cursor o) ≡ true
  cursor_exists make_cursor none h = cc
  cursor_exists make_cursor (some x) h = refl

  -- Of limit + 1 rows fetched, for a limit of at least 1, a page shows the first limit, which with
  -- the rows after them are all the rows, and it has a cursor exactly if there are more rows.
  pub from_fetched_lem :
      (rows : List T) (limit : ℕ) (make_cursor : T → List ℕ)
      → 0 < limit
      → let page = from_fetched (take (suc limit) rows) limit make_cursor in
        (page.items ++ drop limit rows ≡ rows)
        × (length page.items ≤ limit)
        × (is_some page.next_cursor ≡ ltb limit (length rows))
  unfolding from_fetched
  from_fetched_lem rows limit make_cursor p = elim (dec_lt limit (length rows)) [
    | yes more ↦
        let len = length-take (suc limit) rows in
        let kept = length-take limit rows in
        let full = take-take limit rows in
        let ends = last_exists (take limit rows) (omega (arith, kept)) in
        (
          ground (arith, len, full, take-append-drop limit rows),
          ground (arith, len, full, kept),
          ground (arith, len, full, cursor_exists make_cursor (last (take limit rows)) ends),
        )
    | no few ↦
        let all = take_few limit rows (omega arith) in
        (
          ground (arith, all, drop_few limit rows, append-nil rows),
          ground (arith, all),
          ground (arith, all),
        )
  ]

module _ (is_alphanumeric : ℕ → Bool) where
  pub validate_pagination_ok :
      (params : PaginationParams) (v : ValidatedPagination)
      → validate_pagination is_alphanumeric params ≡ valid v
      → (1 ≤ v.limit)
        × (v.limit ≤ max_page_limit)
        × (v.limit ≡ get_or params.limit default_limit)
        × (v.cursor ≡ params.cursor)
        × (v.offset ≡ get_or params.offset 0)
  unfolding validate_pagination
  validate_pagination_ok params v h = ground arith
