-- ===== src/Api/Pagination.antt =====
-- services/api/src/pagination.rs: the checks of page parameters, and the pages. A text is its list
-- of characters; `char::is_alphanumeric` is a parameter.
pub mod Pages
use mathlib.Core.List.{[]}
use predict_iq.Prelude.{
  ℕ, Option, List, Bool, ℤ, none, some, ltb, ◌==◌, true, if◌then◌else◌, get_or, ◌∷◌, length, ◌||◌,
  not, pos, take, ◌&&◌, is_empty, ltb_ℤ,
}

abbrev pub max_page_limit : ℕ
max_page_limit = 100

abbrev pub default_limit : ℕ
default_limit = 20

pub record PaginationParams : Type 0 where
  pub limit : Option ℕ
  pub cursor : Option (List ℕ)
  pub offset : Option ℕ

pub record ValidatedPagination : Type 0 where
  pub limit : ℕ
  pub cursor : Option (List ℕ)
  pub offset : ℕ

-- The four errors, by their messages.
pub data PaginationError : Type 0 where
  zero_limit : PaginationError
  limit_exceeded : ℕ → PaginationError
  invalid_characters : PaginationError
  empty_cursor : PaginationError

pub data PaginationResult : Type 0 where
  valid : ValidatedPagination → PaginationResult
  rejected : PaginationError → PaginationResult

-- `'-' | '_' | '=' | '+' | '/'`.
abbrev pub is_cursor_sign : ℕ → Bool
is_cursor_sign c = c == b'-' || c == b'_' || c == b'=' || c == b'+' || c == b'/'

module _ (is_alphanumeric : ℕ → Bool) where
  unfoldable pub cursor_chars : List ℕ → Bool
  cursor_chars [] = true
  cursor_chars (c ∷ cs) = (is_alphanumeric c || is_cursor_sign c) && cursor_chars cs

  unfoldable pub check_cursor : Option (List ℕ) → Option PaginationError
  unfolding cursor_chars
  check_cursor none = none
  check_cursor (some cursor) =
      if not (cursor_chars cursor)
      then some invalid_characters
      else if is_empty cursor
      then some empty_cursor
      else none

  unfoldable pub validate_pagination : PaginationParams → PaginationResult
  unfolding check_cursor
  validate_pagination params =
      let limit = get_or params.limit default_limit in
      if limit == 0
      then rejected zero_limit
      else if ltb max_page_limit limit
      then rejected (limit_exceeded limit)
      else elim (check_cursor params.cursor) [
        | some error ↦ rejected error
        | none ↦
            valid
              (record { limit = limit; cursor = params.cursor; offset = get_or params.offset 0 })
      ]

-- `PaginationQuery::limit`, over i64.
unfoldable pub query_limit : Option ℤ → ℤ
query_limit limit =
    let asked = get_or limit (pos default_limit) in
    let raised = if ltb_ℤ asked (pos 1) then pos 1 else asked in
    if ltb_ℤ (pos max_page_limit) raised then pos max_page_limit else raised

pub record PageResponse (T : Type 0) : Type 0 where
  pub items : List T
  pub next_cursor : Option (List ℕ)

module _ {T : Type 0} where
  abbrev pub last : List T → Option T
  last [] = none
  last (x ∷ []) = some x
  last (x ∷ y ∷ xs) = last (y ∷ xs)

  abbrev pub map_cursor : (T → List ℕ) → Option T → Option (List ℕ)
  map_cursor make_cursor none = none
  map_cursor make_cursor (some x) = some (make_cursor x)

  unfoldable pub from_fetched : List T → ℕ → (T → List ℕ) → PageResponse T
  from_fetched items limit make_cursor =
      let has_next = ltb limit (length items) in
      let kept = if has_next then take limit items else items in
      record {
        items = kept;
        next_cursor = if has_next then map_cursor make_cursor (last kept) else none;
      }
