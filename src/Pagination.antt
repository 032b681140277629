-- ===== src/Pagination.antt =====
-- common/dto/pagination-query.dto.ts, pagination-search-query.dto.ts and the pages of
-- common/interfaces/api-response.interface.ts: what the listings of the services have in common.
-- The validation of a request lets a limit of 1 to 100 and a page from 1 on pass. How the database
-- orders the rows and compares texts is a parameter.
pub mod Pages
use Prim.Native.Char.{code}
use Prim.Native.Nat.{Ordering}
use Prim.Native.String
use Prim.Native.String.{compare}
use schematica_api.Common.{
  String, ℕ, zero, suc, ◌+◌, ◌-◌, ◌*◌, ◌/◌, Bool, true, false, ◌&&◌, ◌||◌, ◌≡◌, refl, Option, none,
  some, List, [], ◌∷◌, length, map, keep, take, drop, ◌==◌, nat_eq, if◌then◌else◌, to_lower_case,
}

pub record PaginationQueryDto : Type 0 where
  pub limit : ℕ
  pub page : ℕ

unfoldable pub skip : PaginationQueryDto → ℕ
skip query = (query.page - 1) * query.limit

pub record PaginationSearchQueryDto : Type 0 where
  pub query : PaginationQueryDto
  pub search : Option String

pub record PaginationMeta : Type 0 where
  pub total : ℕ
  pub page : ℕ
  pub limit : ℕ
  pub last_page : ℕ

pub record PaginatedServiceResponse (A : Type 0) : Type 0 where
  -- data
  pub items : List A
  pub meta : PaginationMeta

-- `orderBy`: the rows, put into an order in which the first comes before the second.
abbrev pub OrderBy : Type 1
OrderBy = (Row : Type 0) → (Row → Row → Bool) → List Row → List Row

-- It lists the same rows: as many of each kind.
abbrev pub IsOrderBy : OrderBy → Type 1
IsOrderBy order_by =
    (Row : Type 0) (before : Row → Row → Bool) (rows : List Row) (kind : Row → Bool)
    → length (keep kind (order_by Row before rows)) ≡ length (keep kind rows)

-- `Math.ceil(total / limit) || 1`
unfoldable pub last_page : ℕ → ℕ → ℕ
last_page total limit =
    let pages = (total + (limit - 1)) / limit in if nat_eq pages 0 then 1 else pages

-- The rows of one page of the ordered rows, each as its DTO, and the numbers of the listing.
unfoldable pub paginated :
    {Row A : Type 0} → (Row → A) → List Row → ℕ → PaginationQueryDto → PaginatedServiceResponse A
unfolding skip last_page
paginated dto ordered total query = record {
  items = map dto (take query.limit (drop (skip query) ordered));
  meta = record {
    total = total;
    page = query.page;
    limit = query.limit;
    last_page = last_page total query.limit;
  };
}

-- The order of texts, by their characters.
abbrev pub text_before : String → String → Bool
text_before a b = elim (compare a b) [ Ordering.gt ↦ false | _ ↦ true ]

-- `{ contains: part }`, as the database compares texts: the part, and the text.
abbrev pub Contains : Type 0
Contains = String → String → Bool

-- `search ? { name: { contains: search.toLowerCase() } } : {}`
unfoldable pub matches_search : Contains → Option String → String → Bool
matches_search contains none name = true
matches_search contains (some search) name =
    if search == "" then true else contains (to_lower_case search) name
