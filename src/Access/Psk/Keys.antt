-- ===== src/Access/Psk/Keys.antt =====
-- Which requests the private API lets through, and as whom.

use text.Mathlib.TextLemmas.{cons-append, nil-append, cons-ne-nil}
use mathlib.Core.Bool.{false≢true}
use playbook_dispatcher.Common.{
  ◌≡◌, refl, sym, ap, ◌∙◌, Bool, true, false, ◌&&◌, not, String, none, some, List, [], ◌∷◌, any,
  contains, map, IsDistinct, ◌==◌, eq_iff, eq_refl, concat, arith, inl, inr, Bool-cases,
  Option-cases,
}
use playbook_dispatcher.Access.Psk.{
  after_prefix, is_space, drop_spaces, all_alphanumeric, match_header, PskOutcome, next,
  unauthorized, forbidden, find_principal, check_psk_auth,
}

-- The key stands for the principal.
abbrev pub is_listed : List (String × String) → String → String → Bool
is_listed auth_keys principal key = any (λ entry. entry.0 == principal && entry.1 == key) auth_keys

abbrev pub IsAccepted : List (String × String) → String → PskOutcome → Type 0
IsAccepted auth_keys header (next principal) =
    (key : String) × (match_header header ≡ some key) × (is_listed auth_keys principal key ≡ true)
IsAccepted auth_keys header (unauthorized message) = match_header header ≡ none
IsAccepted auth_keys header forbidden =
    (key : String) × (match_header header ≡ some key)
    × (any (λ entry. entry.1 == key) auth_keys ≡ false)

abbrev IsFound : List (String × String) → String → PskOutcome → Type 0
IsFound auth_keys key (next principal) = is_listed auth_keys principal key ≡ true
IsFound auth_keys key (unauthorized message) = ⊥
IsFound auth_keys key forbidden = any (λ entry. entry.1 == key) auth_keys ≡ false

later :
    (entry : String × String) (entries : List (String × String)) (key : String) (o : PskOutcome)
    → (entry.1 == key) ≡ false
    → IsFound entries key o
    → IsFound (entry ∷ entries) key o
later entry entries key (next principal) e h = ground arith
later entry entries key (unauthorized message) e h = h
later entry entries key forbidden e h = ground arith

find_principal-IsFound :
    (entries : List (String × String)) (key : String)
    → IsFound entries key (find_principal entries key)
unfolding find_principal
find_principal-IsFound [] key = refl
find_principal-IsFound ((principal, k) ∷ entries) key = elim (Bool-cases (k == key)) [
  | inl e ↦ rw e (ground (arith, eq_refl principal))
  | inr e ↦ rw e (later (principal, k) entries key _ e (find_principal-IsFound entries key))
]

presented :
    (auth_keys : List (String × String)) (header : String) (o : PskOutcome) (key : String)
    → match_header header ≡ some key
    → IsFound auth_keys key o
    → IsAccepted auth_keys header o
presented auth_keys header (next principal) key e h = (key, e, h)
presented auth_keys header (unauthorized message) key e h = elim h [ ]
presented auth_keys header forbidden key e h = (key, e, h)

empty_header : match_header "" ≡ none
unfolding match_header after_prefix
empty_header = refl

-- A request is let through as a principal only with a key that is listed for it; it is refused with 401
-- only where its header holds no key, and with 403 only where its key is listed for nobody.
pub check_psk_auth-IsAccepted :
    (auth_keys : List (String × String)) (header : String)
    → IsAccepted auth_keys header (check_psk_auth auth_keys header)
unfolding check_psk_auth
check_psk_auth-IsAccepted auth_keys header = elim (Bool-cases (header == "")) [
  | inl e ↦ rw e (ap match_header ((eq_iff header "").0 e) ∙ empty_header)
  | inr e ↦ rw e (elim (Option-cases (match_header header)) [
    | inl n ↦ rw n n
    | inr found ↦
        rw found.1
          (presented auth_keys header _ found.0 found.1 (find_principal-IsFound auth_keys found.0))
  ])
]

all_alphanumeric-drop_spaces : (key : String) → all_alphanumeric key ≡ true → drop_spaces key ≡ key
unfolding all_alphanumeric drop_spaces
all_alphanumeric-drop_spaces String.[] h = refl
all_alphanumeric-drop_spaces (String.◌∷◌ c s) h =
    let other : is_space c ≡ false = ground arith in rw other refl

-- "PSK" and a space before a text.
psk_header :
    (key : String)
    → concat "PSK " key ≡ String.◌∷◌ "P" (String.◌∷◌ "S" (String.◌∷◌ "K" (String.◌∷◌ " " key)))
psk_header key =
    cons-append "P" "SK " key
    ∙ ap (String.◌∷◌ "P") (
        cons-append "S" "K " key
        ∙ ap (String.◌∷◌ "S") (
            cons-append "K" " " key
            ∙ ap (String.◌∷◌ "K") (cons-append " " "" key ∙ ap (String.◌∷◌ " ") (nil-append key))))

match_header-key :
    (key : String)
    → (not (key == "") && all_alphanumeric key) ≡ true
    → match_header (concat "PSK " key) ≡ some key
unfolding match_header after_prefix
match_header-key key h =
    let alphanumeric : all_alphanumeric key ≡ true = ground arith in
    rw (psk_header key, all_alphanumeric-drop_spaces key alphanumeric, h) refl

not_empty : (key : String) → (concat "PSK " key == "") ≡ false
not_empty key = elim (Bool-cases (concat "PSK " key == "")) [
  | inl e ↦ absurd (cons-ne-nil "P" _ (sym (psk_header key) ∙ (eq_iff (concat "PSK " key) "").0 e))
  | inr e ↦ e
]

unlisted :
    (entries : List (String × String)) (principal key : String)
    → contains key (map (λ entry. entry.1) entries) ≡ false
    → is_listed entries principal key ≡ true
    → ⊥
unlisted [] principal key c l = absurd (false≢true l)
unlisted ((p, k) ∷ entries) principal key c l =
    unlisted entries principal key (ground arith) (ground arith)

find_principal-listed :
    (entries : List (String × String)) (principal key : String)
    → IsDistinct (map (λ entry. entry.1) entries)
    → is_listed entries principal key ≡ true
    → find_principal entries key ≡ next principal
unfolding find_principal
find_principal-listed [] principal key d l = absurd (false≢true l)
find_principal-listed ((p, k) ∷ entries) principal key (c, d) l = elim (Bool-cases (k == key)) [
  | inl e ↦ rw e (
      ap next (elim (Bool-cases (p == principal)) [
        | inl same ↦ (eq_iff p principal).0 same
        | inr other ↦
            absurd (unlisted entries principal key (rw ((eq_iff k key).0 e) at c) (ground arith))
      ]))
  | inr e ↦ rw e (find_principal-listed entries principal key d (ground arith))
]

-- Where no key is listed twice, a request with a listed key of letters and digits is let through as its
-- principal, in whatever order the keys are visited.
pub check_psk_auth-listed :
    (auth_keys : List (String × String)) (principal key : String)
    → (not (key == "") && all_alphanumeric key) ≡ true
    → IsDistinct (map (λ entry. entry.1) auth_keys)
    → is_listed auth_keys principal key ≡ true
    → check_psk_auth auth_keys (concat "PSK " key) ≡ next principal
unfolding check_psk_auth
check_psk_auth-listed auth_keys principal key h d l =
    rw (not_empty key, match_header-key key h) (find_principal-listed auth_keys principal key d l)
