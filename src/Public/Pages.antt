-- ===== src/Public/Pages.antt =====
-- Pages and their links: internal/api/controllers/public/common.go. Setting two parameters of a query
-- and encoding it again is a parameter, `Urls`; so is printing a number. The schema of the API keeps a
-- limit at 1 or more and an offset at 0 or more.
pub mod Cover
pub mod Parts
use playbook_dispatcher.Common.{
  ℕ, zero, suc, ◌+◌, ◌-◌, ◌*◌, ◌/◌, String, Option, none, some, List, [], ◌∷◌, if◌then◌else◌, ltb,
  concat,
}

pub record Urls : Type 0 where
  pub itoa : ℕ → String
  pub set_page : String → String → String → String

-- `getLimit` and `getOffset`
abbrev pub get_limit : Option ℕ → ℕ
get_limit none = 50
get_limit (some limit) = limit

abbrev pub get_offset : Option ℕ → ℕ
get_offset none = 0
get_offset (some offset) = offset

pub record Links : Type 0 where
  pub first : String
  pub last : String
  pub next : Option String
  pub previous : Option String

-- `createLink`
unfoldable pub create_link : Urls → String → String → ℕ → ℕ → String
create_link urls base query_string limit offset =
    concat base (concat "?" (urls.set_page query_string (urls.itoa limit) (urls.itoa offset)))

-- `lastPage`; `total-1` stops at 0, as the maximum does.
abbrev pub last_page : ℕ → ℕ → ℕ
last_page limit total = (total - 1) / limit

-- `createLinks`
unfoldable pub create_links : Urls → String → String → ℕ → ℕ → ℕ → Links
unfolding create_link
create_links urls base query_string limit offset total =
    let previous = create_link urls base query_string limit (offset - limit) in
    let next = create_link urls base query_string limit (offset + limit) in
    record {
      first = create_link urls base query_string limit 0;
      last = create_link urls base query_string limit (last_page limit total * limit);
      next = if ltb (offset + limit) total then some next else none;
      previous = if ltb 0 offset then some previous else none;
    }

-- `Limit` and `Offset` of a query.
module _ {ℓ} {A : Type ℓ} where
  abbrev pub take : ℕ → List A → List A
  take zero xs = []
  take (suc n) [] = []
  take (suc n) (x ∷ xs) = x ∷ take n xs

  abbrev pub drop : ℕ → List A → List A
  drop zero xs = xs
  drop (suc n) [] = []
  drop (suc n) (x ∷ xs) = drop n xs

  abbrev pub page : ℕ → ℕ → List A → List A
  page limit offset xs = take limit (drop offset xs)
