-- ===== src/Networks/Merging.antt =====
-- `Merge`: which texts it returns, in which form and order.
use netflix_pbrd.Base.{
  ◌≡◌, refl, sym, ap, ◌∙◌, true, false, Bool, ◌||◌, List, [], ◌∷◌, ◌++◌, Option, none, some, Text,
  All, arith, Bool-cases, Option-cases, inl, inr,
}
use netflix_pbrd.Text.{text_eq, contains, set_add}
use netflix_pbrd.Text.Laws.{text_eq→eq}
use netflix_pbrd.Text.Sets.{
  IsSorted, HasNoRepeat, All-of_contains, contains-set_add, set_add-HasNoRepeat,
  contains-sort_strings, sort_strings-IsSorted, sorted_ext,
}
use netflix_pbrd.Networks.Canonical.{canonical_network_idem}
use netflix_pbrd.Networks.{canonical_network, add_canonical, add_groups, merge}

-- Whether some text of a group has the canonical form `y`, and some text of some group.
abbrev pub is_form : Option Text → Text → Bool
is_form none y = false
is_form (some value) y = text_eq value y

abbrev pub names : List Text → Text → Bool
names [] y = false
names (raw ∷ group) y = is_form (canonical_network raw) y || names group y

abbrev pub names_any : List (List Text) → Text → Bool
names_any [] y = false
names_any (group ∷ groups) y = names group y || names_any groups y

or_assoc_swap : (a b c : Bool) → (a || (b || c)) ≡ (b || a || c)
or_assoc_swap a b c = ground arith

contains-add_canonical :
    (group set : List Text) (y : Text)
    → contains (add_canonical group set) y ≡ (names group y || contains set y)
unfolding add_canonical
contains-add_canonical [] set y = refl
contains-add_canonical (raw ∷ group) set y = elim (Option-cases (canonical_network raw)) [
  | inl bad ↦ rw bad (contains-add_canonical group set y)
  | inr (value, form) ↦ rw form (
      contains-add_canonical group (set_add value set) y
      ∙ rw contains-set_add (or_assoc_swap (names group y) (text_eq value y) (contains set y)))
]

contains-add_groups :
    (groups : List (List Text)) (set : List Text) (y : Text)
    → contains (add_groups groups set) y ≡ (names_any groups y || contains set y)
unfolding add_groups
contains-add_groups [] set y = refl
contains-add_groups (group ∷ groups) set y =
    contains-add_groups groups (add_canonical group set) y
    ∙ rw contains-add_canonical
        (or_assoc_swap (names_any groups y) (names group y) (contains set y))

pub add_canonical-HasNoRepeat :
    (group set : List Text) → HasNoRepeat set → HasNoRepeat (add_canonical group set)
unfolding add_canonical
add_canonical-HasNoRepeat [] set h = h
add_canonical-HasNoRepeat (raw ∷ group) set h = elim (Option-cases (canonical_network raw)) [
  | inl bad ↦ rw bad (add_canonical-HasNoRepeat group set h)
  | inr (value, form) ↦
      rw form
        (add_canonical-HasNoRepeat group (set_add value set) (set_add-HasNoRepeat value set h))
]

add_groups-HasNoRepeat :
    (groups : List (List Text)) (set : List Text)
    → HasNoRepeat set
    → HasNoRepeat (add_groups groups set)
unfolding add_groups
add_groups-HasNoRepeat [] set h = h
add_groups-HasNoRepeat (group ∷ groups) set h =
    add_groups-HasNoRepeat groups _ (add_canonical-HasNoRepeat group set h)

-- A text is in the merged set exactly if it is the canonical form of a text of some group.
pub contains-merge :
    (groups : List (List Text)) (y : Text) → contains (merge groups) y ≡ names_any groups y
unfolding merge
contains-merge groups y =
    contains-sort_strings (add_groups groups []) y
    ∙ contains-add_groups groups [] y
    ∙ unfold contains in ground arith

pub merge-IsSorted : (groups : List (List Text)) → IsSorted (merge groups)
unfolding merge
merge-IsSorted groups = sort_strings-IsSorted _ (add_groups-HasNoRepeat groups [] tt)

-- The texts that are their own canonical form.
abbrev pub IsForm : Text → Type 0
IsForm w = canonical_network w ≡ some w

-- What `Merge` and `ValidateNetworks` return: canonical forms, strictly ascending.
pub record IsNetworkSet (set : List Text) : Type 0 where
  pub sorted : IsSorted set
  pub forms : All IsForm set

names-IsForm : (group : List Text) (y : Text) → names group y ≡ true → IsForm y
names-IsForm [] y h = absurd (ground arith)
names-IsForm (raw ∷ group) y h = elim (Option-cases (canonical_network raw)) [
  | inl bad ↦ names-IsForm group y (rw bad at h)
  | inr (value, form) ↦ elim (Bool-cases (text_eq value y)) [
    | inl same ↦ canonical_network_idem raw y (form ∙ ap some (text_eq→eq value y same))
    | inr differ ↦ names-IsForm group y (rw (form, differ) at h)
  ]
]

names_any-IsForm : (groups : List (List Text)) (y : Text) → names_any groups y ≡ true → IsForm y
names_any-IsForm [] y h = absurd (ground arith)
names_any-IsForm (group ∷ groups) y h = elim (Bool-cases (names group y)) [
  | inl here ↦ names-IsForm group y here
  | inr later ↦ names_any-IsForm groups y (rw later at h)
]

-- `Merge` returns canonical forms in strictly ascending order.
pub merge-IsNetworkSet : (groups : List (List Text)) → IsNetworkSet (merge groups)
merge-IsNetworkSet groups = record {
  sorted = merge-IsSorted groups;
  forms =
      All-of_contains IsForm (merge groups)
        (λ y c. names_any-IsForm groups y (sym (contains-merge groups y) ∙ c));
}

-- Of a list of canonical forms, the forms are the members.
pub names_forms : (set : List Text) (y : Text) → All IsForm set → names set y ≡ contains set y
unfolding contains
names_forms [] y h = refl
names_forms (x ∷ set) y h = rw (h.0, names_forms set y h.1)

-- The merged set depends only on which canonical forms the groups name, not on their order, their
-- repetition or how they are spelled.
pub merge_ext :
    (groups others : List (List Text))
    → ((y : Text) → names_any groups y ≡ names_any others y)
    → merge groups ≡ merge others
merge_ext groups others h =
    sorted_ext _ _ (merge-IsSorted groups) (merge-IsSorted others)
      (λ y. contains-merge groups y ∙ h y ∙ sym (contains-merge others y))

pub merge_one : (set : List Text) → IsNetworkSet set → merge (set ∷ []) ≡ set
merge_one set h =
    sorted_ext _ _ (merge-IsSorted (set ∷ [])) h.sorted
      (λ y. contains-merge (set ∷ []) y ∙ ground (arith, names_forms set y h.forms))

names_any-append :
    (groups others : List (List Text)) (y : Text)
    → names_any (groups ++ others) y ≡ (names_any groups y || names_any others y)
names_any-append [] others y = refl
names_any-append (group ∷ groups) others y =
    rw (names_any-append groups others y)
      (or_assoc (names group y) (names_any groups y) (names_any others y))
  where
    or_assoc : (a b c : Bool) → (a || (b || c)) ≡ (a || b || c)
    or_assoc a b c = ground arith

-- Merging a merged set with further groups is merging all the groups at once.
pub merge-merge :
    (groups others : List (List Text)) → merge (merge groups ∷ others) ≡ merge (groups ++ others)
merge-merge groups others = merge_ext (merge groups ∷ others) (groups ++ others) λ y.
    rw (names_forms (merge groups) y (merge-IsNetworkSet groups).forms, contains-merge groups y)
      (sym (names_any-append groups others y))
