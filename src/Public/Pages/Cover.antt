-- ===== src/Public/Pages/Cover.antt =====
-- Following the links visits every row once.
use playbook_dispatcher.Common.{
  ℕ, zero, suc, ◌+◌, ◌*◌, ◌≤◌, ◌<◌, ◌≡◌, refl, sym, ◌∙◌, ap, String, Option, none, some, List, [],
  ◌∷◌, ◌++◌, length, concat, false, ltb, arith, ◌⊎◌, inl, inr, Bool-cases,
}
use native.Mathlib.Nat.{zero-add, suc-add, suc-mul, div-mul-le_self, lt-div-mul-add}
use mathlib.Core.List.{append-nil}
use playbook_dispatcher.Public.Pages.{Urls, create_link, create_links, last_page, take, drop, page}

-- The last link leads to a page that is not empty, unless nothing is found, and no page follows it.
pub last_page_lem :
    (limit total : ℕ)
    → 1 ≤ limit
    → ((total ≡ 0) ⊎ (last_page limit total * limit < total))
      × (total ≤ last_page limit total * limit + limit)
last_page_lem limit zero h = (inl refl, omega arith)
last_page_lem limit (suc n) h = (
  inr (omega (arith, div-mul-le_self n limit)),
  omega (arith, lt-div-mul-add {a = n} {b = limit} (omega arith)),
)

module _ {ℓ} {A : Type ℓ} where
  pub take-append-drop : (n : ℕ) (xs : List A) → take n xs ++ drop n xs ≡ xs
  take-append-drop zero xs = refl
  take-append-drop (suc n) [] = refl
  take-append-drop (suc n) (x ∷ xs) = ap (λ ys. x ∷ ys) (take-append-drop n xs)

  drop-nil : (n : ℕ) → drop {A = A} n [] ≡ []
  drop-nil zero = refl
  drop-nil (suc n) = refl

  drop-drop : (m n : ℕ) (xs : List A) → drop n (drop m xs) ≡ drop (m + n) xs
  drop-drop zero n xs = rw (zero-add n) refl
  drop-drop (suc m) n [] = rw (suc-add m n, drop-nil n) refl
  drop-drop (suc m) n (x ∷ xs) = rw (suc-add m n) (drop-drop m n xs)

  drop-past : (n : ℕ) (xs : List A) → length xs ≤ n → drop n xs ≡ []
  drop-past zero [] h = refl
  drop-past zero (x ∷ xs) h = absurd (omega arith)
  drop-past (suc n) [] h = refl
  drop-past (suc n) (x ∷ xs) h = drop-past n xs (omega arith)

  last_of :
      (limit offset : ℕ) (xs : List A)
      → length xs ≤ offset + limit
      → page limit offset xs ≡ drop offset xs
  last_of limit offset xs h =
      sym (append-nil _)
      ∙ ap (λ ys. page limit offset xs ++ ys)
          (sym (drop-drop offset limit xs ∙ drop-past (offset + limit) xs h))
      ∙ take-append-drop limit (drop offset xs)

-- A client that follows links. `read_page` is the limit and the offset that the request of a link has.
module _ {ℓ} {A : Type ℓ} (urls : Urls) (base query_string : String)
    (read_page : String → ℕ × ℕ) where
  -- The rows that the client gets from a link on, following `next` through at most `n` pages.
  unfoldable pub follow_links : ℕ → Option String → List A → List A
  unfolding create_links
  follow_links n none xs = []
  follow_links zero (some link) xs = []
  follow_links (suc n) (some link) xs =
      let (limit, offset) = read_page link in
      page limit offset xs
      ++ follow_links n (create_links urls base query_string limit offset (length xs)).next xs

  module _ (limit : ℕ)
      (encoded : (offset : ℕ)
        → read_page (
            concat base
              (concat "?" (urls.set_page query_string (urls.itoa limit) (urls.itoa offset))))
          ≡ (limit, offset)) where
    last_page_read :
        (n offset : ℕ) (xs : List A)
        → length xs ≤ offset + limit
        → page limit offset xs
            ++ follow_links n (create_links urls base query_string limit offset (length xs)).next xs
          ≡ drop offset xs
    unfolding create_links follow_links
    last_page_read n offset xs h =
        let end : ltb (offset + limit) (length xs) ≡ false = ground arith in
        rw end (append-nil (page limit offset xs) ∙ last_of limit offset xs h)

    follow_links-drop :
        (n offset : ℕ) (xs : List A)
        → length xs ≤ offset + n * limit + limit
        → follow_links (suc n) (some (create_link urls base query_string limit offset)) xs
          ≡ drop offset xs
    unfolding create_links create_link follow_links
    follow_links-drop zero offset xs h =
        rw (encoded offset) (last_page_read zero offset xs (omega arith))
    follow_links-drop (suc n) offset xs h = elim (Bool-cases (ltb (offset + limit) (length xs))) [
      | inl more ↦
          rw
            (
              encoded offset,
              more,
              follow_links-drop n (offset + limit) xs (omega (arith, h, suc-mul n limit)),
            )
            (ap (λ ys. page limit offset xs ++ ys) (sym (drop-drop offset limit xs))
              ∙ take-append-drop limit (drop offset xs))
      | inr end ↦ rw (encoded offset) (last_page_read (suc n) offset xs (ground arith))
    ]

    -- A client that starts with the link `first` and follows the links `next` of the pages it gets sees
    -- every row exactly once and in order, after as many pages as the number of the last page and one.
    pub follow_links_lem :
        (xs : List A)
        → 1 ≤ limit
        → follow_links
            (suc (last_page limit (length xs)))
            (some (create_links urls base query_string limit 0 (length xs)).first)
            xs
          ≡ xs
    unfolding create_links
    follow_links_lem xs h =
        follow_links-drop (last_page limit (length xs)) 0 xs
          (omega (arith, (last_page_lem limit (length xs) h).1))
