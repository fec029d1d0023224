-- ===== src/Text/Sets.antt =====
-- Sets of texts and their sorted lists.
use netflix_pbrd.Base.{
  suc, ◌≡◌, refl, ap, ◌∙◌, inl, inr, true, false, ◌||◌, List, [], ◌∷◌, Text, All, All-mono, length,
  arith, Bool-cases,
}
use netflix_pbrd.Text.{text_eq, contains, set_add, text_lt, insert_sorted, sort_strings}
use netflix_pbrd.Text.Laws.{text_eq→eq, text_eq_refl}
use netflix_pbrd.Text.Order.{text_lt_irrefl, text_lt_trans, text_lt_total}

-- Strictly ascending: sorted, with no repetition.
abbrev pub IsSorted : List Text → Type 0
IsSorted [] = Unit
IsSorted (x ∷ xs) = All (λ y. text_lt x y ≡ true) xs × IsSorted xs

-- No text occurs twice.
abbrev pub HasNoRepeat : List Text → Type 0
HasNoRepeat [] = Unit
HasNoRepeat (x ∷ xs) = (contains xs x ≡ false) × HasNoRepeat xs

pub All-contains {κ} :
    (P : Text → Type κ) (xs : List Text) (y : Text) → All P xs → contains xs y ≡ true → P y
unfolding contains
All-contains P [] y h c = absurd (ground arith)
All-contains P (x ∷ xs) y h c = elim (Bool-cases (text_eq x y)) [
  | inl same ↦ rw (← text_eq→eq x y same) h.0
  | inr differ ↦ All-contains P xs y h.1 (ground arith)
]

pub All-of_contains {κ} :
    (P : Text → Type κ) (xs : List Text) → ((y : Text) → contains xs y ≡ true → P y) → All P xs
unfolding contains
All-of_contains P [] f = tt
All-of_contains P (x ∷ xs) f =
    (f x (rw (text_eq_refl x)), All-of_contains P xs (λ y c. f y (ground arith)))

pub contains-set_add :
    (x : Text) (s : List Text) (y : Text) → contains (set_add x s) y ≡ (text_eq x y || contains s y)
unfolding set_add
contains-set_add x s y = elim (Bool-cases (text_eq x y)) [
  | inl same ↦ ground (arith, text_eq→eq x y same)
  | inr differ ↦ ground arith
]

pub set_add-HasNoRepeat : (x : Text) (s : List Text) → HasNoRepeat s → HasNoRepeat (set_add x s)
unfolding set_add
set_add-HasNoRepeat x s h = ground arith

pub contains-insert_sorted :
    (x : Text) (s : List Text) (y : Text)
    → contains (insert_sorted x s) y ≡ (text_eq x y || contains s y)
unfolding insert_sorted contains
contains-insert_sorted x [] y = refl
contains-insert_sorted x (z ∷ s) y = ground (arith, contains-insert_sorted x s y)

pub contains-sort_strings : (s : List Text) (y : Text) → contains (sort_strings s) y ≡ contains s y
unfolding sort_strings contains
contains-sort_strings [] y = refl
contains-sort_strings (x ∷ s) y =
    contains-insert_sorted x (sort_strings s) y ∙ rw (contains-sort_strings s y)

length-insert_sorted : (x : Text) (s : List Text) → length (insert_sorted x s) ≡ suc (length s)
unfolding insert_sorted
length-insert_sorted x [] = refl
length-insert_sorted x (y ∷ s) = ground (arith, length-insert_sorted x s)

pub length-sort_strings : (s : List Text) → length (sort_strings s) ≡ length s
unfolding sort_strings
length-sort_strings [] = refl
length-sort_strings (x ∷ s) =
    length-insert_sorted x (sort_strings s) ∙ ap suc (length-sort_strings s)

insert_sorted-All {κ} :
    (P : Text → Type κ) (x : Text) (s : List Text) → P x → All P s → All P (insert_sorted x s)
unfolding insert_sorted
insert_sorted-All P x [] p h = (p, tt)
insert_sorted-All P x (y ∷ s) p h = elim (Bool-cases (text_lt y x)) [
  | inl lt ↦ rw lt (h.0, insert_sorted-All P x s p h.1)
  | inr ge ↦ rw ge (p, h)
]

insert_sorted-IsSorted :
    (x : Text) (s : List Text) → contains s x ≡ false → IsSorted s → IsSorted (insert_sorted x s)
unfolding insert_sorted contains
insert_sorted-IsSorted x [] c h = (tt, tt)
insert_sorted-IsSorted x (y ∷ s) c h = elim (text_lt_total x y) [
  | inl lt ↦ rw (ge-of-lt x y lt) ((lt, All-mono _ _ (λ z k. text_lt_trans x y z lt k) s h.0), h)
  | inr (inl e) ↦ absurd (ground (arith, text_eq_refl x))
  | inr (inr gt) ↦ rw gt (
    insert_sorted-All (λ z. text_lt y z ≡ true) x s gt h.0,
    insert_sorted-IsSorted x s (ground arith) h.1,
  )
]
  where
    ge-of-lt : (x y : Text) → text_lt x y ≡ true → text_lt y x ≡ false
    ge-of-lt x y lt = elim (Bool-cases (text_lt y x)) [
      | inl gt ↦ absurd (ground (arith, text_lt_trans x y x lt gt, text_lt_irrefl x))
      | inr ge ↦ ge
    ]

pub sort_strings-IsSorted : (s : List Text) → HasNoRepeat s → IsSorted (sort_strings s)
unfolding sort_strings
sort_strings-IsSorted [] h = tt
sort_strings-IsSorted (x ∷ s) h =
    insert_sorted-IsSorted x (sort_strings s) (contains-sort_strings s x ∙ h.0)
      (sort_strings-IsSorted s h.1)

not-contains-head :
    (x : Text) (xs : List Text) → All (λ y. text_lt x y ≡ true) xs → contains xs x ≡ false
not-contains-head x xs h = elim (Bool-cases (contains xs x)) [
  | inl c ↦
      absurd (ground (arith, All-contains (λ y. text_lt x y ≡ true) xs x h c, text_lt_irrefl x))
  | inr c ↦ c
]

-- No text stands before the head of a sorted list that holds it.
head-le :
    (x y : Text) (xs : List Text)
    → IsSorted (x ∷ xs)
    → contains (x ∷ xs) y ≡ true
    → text_lt y x ≡ false
unfolding contains
head-le x y xs h c = elim (Bool-cases (text_lt y x)) [
  | inr ge ↦ ge
  | inl lt ↦ elim (Bool-cases (text_eq x y)) [
    | inl same ↦ absurd (ground (arith, text_eq→eq x y same, text_lt_irrefl x))
    | inr differ ↦ absurd (
        ground (
          arith,
          text_lt_irrefl x,
          text_lt_trans x y x (All-contains (λ z. text_lt x z ≡ true) xs y h.0 (ground arith)) lt,
        ))
  ]
]

-- A strictly sorted list is determined by its members.
pub sorted_ext :
    (xs ys : List Text)
    → IsSorted xs
    → IsSorted ys
    → ((y : Text) → contains xs y ≡ contains ys y)
    → xs ≡ ys
unfolding contains
sorted_ext [] [] h k e = refl
sorted_ext [] (y ∷ ys) h k e = absurd (ground (arith, e y, text_eq_refl y))
sorted_ext (x ∷ xs) [] h k e = absurd (ground (arith, e x, text_eq_refl x))
sorted_ext (x ∷ xs) (y ∷ ys) h k e =
    let same : x ≡ y = elim (text_lt_total x y) [
      | inl lt ↦ absurd (ground (arith, head-le y x ys k (ground (arith, e x, text_eq_refl x))))
      | inr (inl p) ↦ p
      | inr (inr gt) ↦
          absurd (ground (arith, head-le x y xs h (ground (arith, e y, text_eq_refl y))))
    ] in
    let tails : xs ≡ ys = sorted_ext xs ys h.1 k.1 (λ z. elim (Bool-cases (text_eq x z)) [
      | inl p ↦
          let at_x : contains xs x ≡ false = not-contains-head x xs h.0 in
          let at_y : contains ys y ≡ false = not-contains-head y ys k.0 in
          ground (arith, text_eq→eq x z p)
      | inr p ↦ ground (arith, e z)
    ]) in
    cc
