-- ===== src/Kafka/Headers.antt =====
-- What `Headers` builds and `GetHeader` finds.
use playbook_dispatcher.Common.{
  suc, ◌*◌, ◌≡◌, refl, sym, ap, false, String, none, some, List, [], ◌∷◌, ◌++◌, arith, ◌==◌, length,
  length-append, eq_iff,
}
use playbook_dispatcher.Kafka.{get_header, header_pairs, zero_headers, headers}

length-header_pairs : (l : List String) → length (zero_headers l) ≡ length (header_pairs l)
unfolding header_pairs zero_headers
length-header_pairs [] = refl
length-header_pairs (k ∷ []) = refl
length-header_pairs (k ∷ v ∷ more) = ap suc (length-header_pairs more)

get_header-zero_headers :
    (key : String) (l : List String) → (key == "") ≡ false → get_header key (zero_headers l) ≡ none
unfolding get_header zero_headers
get_header-zero_headers key [] h = refl
get_header-zero_headers key (k ∷ []) h = refl
get_header-zero_headers key (k ∷ v ∷ more) h =
    ground (arith, get_header-zero_headers key more, eq_iff "" key, eq_iff key "")

get_header-append :
    (key : String) (xs ys : List (String × String))
    → get_header key ys ≡ none
    → get_header key (xs ++ ys) ≡ get_header key xs
unfolding get_header
get_header-append key [] ys h = h
get_header-append key ((k, v) ∷ xs) ys h = ground (arith, get_header-append key xs ys)

headers_eq :
    (l : List String) {hs : List (String × String)}
    → headers l ≡ some hs
    → (header_pairs l ++ zero_headers l) ≡ hs
unfolding headers
headers_eq l h = ground arith

-- Each key that `Headers` is given is found with its first value, and no other key is, unless it is
-- the empty one.
pub get_header-headers :
    (l : List String) (key : String) {hs : List (String × String)}
    → headers l ≡ some hs
    → (key == "") ≡ false
    → get_header key hs ≡ get_header key (header_pairs l)
get_header-headers l key h k =
    rw (← headers_eq l h)
      (get_header-append key (header_pairs l) (zero_headers l) (get_header-zero_headers key l k))

-- What `Headers` returns has twice as many headers as it was given pairs: the second half of them has
-- empty keys and empty values.
pub length-headers :
    (l : List String) {hs : List (String × String)}
    → headers l ≡ some hs
    → (length hs ≡ 2 * length (header_pairs l)) × (hs ≡ header_pairs l ++ zero_headers l)
length-headers l h = (
  rw (← headers_eq l h)
      (omega (arith, length-append (header_pairs l) (zero_headers l), length-header_pairs l)),
  sym (headers_eq l h),
)
