-- ===== src/Prelude/Lists.antt =====
-- Lists measured and indexed by native numbers, with the array methods that the source calls.
use Prim.Native.Nat.{ℕ, zero, suc, ◌+◌, ◌-◌, ◌≤◌}
use mathlib.Core.Path.{◌≡◌, refl, ap}
use mathlib.Core.Bool.{Bool, true, false, ◌&&◌, ◌||◌}
use mathlib.Core.List.{List, [], ◌∷◌, ◌++◌}
use mathlib.Core.Option.{Option, none, some}
use mathlib.Core.Logic.{◌⊎◌, inl, inr}
use native.Mathlib.Omega.{arith}
use durak_card_game.Prelude.Tests.{if◌then◌else◌, Option-cases, Bool-cases}

module _ {ℓ} {A : Type ℓ} where
  abbrev pub length : List A → ℕ
  length [] = 0
  length (x ∷ xs) = suc (length xs)

  abbrev pub get_elem? : List A → ℕ → Option A
  get_elem? [] i = none
  get_elem? (x ∷ xs) zero = some x
  get_elem? (x ∷ xs) (suc i) = get_elem? xs i

  abbrev pub take : ℕ → List A → List A
  take zero xs = []
  take (suc n) [] = []
  take (suc n) (x ∷ xs) = x ∷ take n xs

  abbrev pub drop : ℕ → List A → List A
  drop zero xs = xs
  drop (suc n) [] = []
  drop (suc n) (x ∷ xs) = drop n xs

  -- `xs.slice(-n)` for a positive `n`
  abbrev pub take_last : ℕ → List A → List A
  take_last n xs = drop (length xs - n) xs

  -- `xs[xs.length - 1]`
  abbrev pub last? : List A → Option A
  last? [] = none
  last? (x ∷ []) = some x
  last? (x ∷ y ∷ ys) = last? (y ∷ ys)

  abbrev pub is_empty : List A → Bool
  is_empty [] = true
  is_empty (x ∷ xs) = false

  -- `xs.some(p)`
  abbrev pub any : (A → Bool) → List A → Bool
  any p [] = false
  any p (x ∷ xs) = p x || any p xs

  -- `xs.filter(p)`
  abbrev pub filter : (A → Bool) → List A → List A
  filter p [] = []
  filter p (x ∷ xs) = let rest = filter p xs in if p x then x ∷ rest else rest

  -- `xs.find(p)`
  abbrev pub find : (A → Bool) → List A → Option A
  find p [] = none
  find p (x ∷ xs) = let rest = find p xs in if p x then some x else rest

  pub length-append : (xs ys : List A) → length (xs ++ ys) ≡ length xs + length ys
  length-append [] ys = omega arith
  length-append (x ∷ xs) ys = omega (arith, length-append xs ys)

  pub length-drop : (n : ℕ) (xs : List A) → length (drop n xs) ≡ length xs - n
  length-drop zero xs = omega arith
  length-drop (suc n) [] = omega arith
  length-drop (suc n) (x ∷ xs) = omega (arith, length-drop n xs)

  pub length-take_last-le : (n : ℕ) (xs : List A) → length (take_last n xs) ≤ n
  length-take_last-le n xs = omega (arith, length-drop (length xs - n) xs)

  pub length-take_last-le-length : (n : ℕ) (xs : List A) → length (take_last n xs) ≤ length xs
  length-take_last-le-length n xs = omega (arith, length-drop (length xs - n) xs)

  pub length-filter-le : (p : A → Bool) (xs : List A) → length (filter p xs) ≤ length xs
  length-filter-le p [] = omega arith
  length-filter-le p (x ∷ xs) = ground (arith, length-filter-le p xs)

  pub filter-eq_of_length :
      (p : A → Bool) (xs : List A) → length (filter p xs) ≡ length xs → filter p xs ≡ xs
  filter-eq_of_length p [] h = refl
  filter-eq_of_length p (x ∷ xs) h = ground (arith, filter-eq_of_length p xs, length-filter-le p xs)

  pub take-append-drop : (n : ℕ) (xs : List A) → take n xs ++ drop n xs ≡ xs
  take-append-drop zero xs = refl
  take-append-drop (suc n) [] = refl
  take-append-drop (suc n) (x ∷ xs) = ap (◌∷◌ x) (take-append-drop n xs)

module _ {ℓ} {A : Type ℓ} where
  pub any-append : (p : A → Bool) (xs ys : List A) → any p (xs ++ ys) ≡ (any p xs || any p ys)
  any-append p [] ys = refl
  any-append p (x ∷ xs) ys = ground (arith, any-append p xs ys)

  pub last?-cons-ne-none : (x : A) (xs : List A) → last? (x ∷ xs) ≡ none → ⊥
  last?-cons-ne-none x [] h = cc
  last?-cons-ne-none x (y ∷ ys) h = last?-cons-ne-none y ys h

  pub last?-cons :
      (x : A) (xs : List A) → last? (x ∷ xs) ≡ (elim (last? xs) [ none ↦ some x | some y ↦ some y ])
  last?-cons x [] = refl
  last?-cons x (y ∷ ys) = elim (Option-cases (last? (y ∷ ys))) [
    | inl e ↦ absurd (last?-cons-ne-none y ys e)
    | inr (z, e) ↦ rw e
  ]

-- A predicate of every element, by recursion, so that it computes to a tuple.
module _ {ℓ κ} {A : Type ℓ} (P : A → Type κ) where
  abbrev pub All : List A → Type κ
  All [] = Unit
  All (x ∷ xs) = P x × All xs

module _ {ℓ κ} {A : Type ℓ} (P : A → Type κ) where
  pub All-append : (xs ys : List A) → All P xs → All P ys → All P (xs ++ ys)
  All-append [] ys _ k = k
  All-append (x ∷ xs) ys (p, h) k = (p, All-append xs ys h k)

  pub All-drop : (n : ℕ) (xs : List A) → All P xs → All P (drop n xs)
  All-drop zero xs h = h
  All-drop (suc n) [] h = tt
  All-drop (suc n) (x ∷ xs) (p, h) = All-drop n xs h

  pub All-filter : (q : A → Bool) (xs : List A) → All P xs → All P (filter q xs)
  All-filter q [] h = tt
  All-filter q (x ∷ xs) (p, h) = ground (arith, All-filter q xs h)

-- `x` is the first item of `xs` that passes the test.
pub record FirstOf {ℓ} {A : Type ℓ} (p : A → Bool) (xs : List A) (x : A) : Type ℓ where
  pub before : List A
  pub after : List A
  pub split : xs ≡ before ++ x ∷ after
  pub earlier : All (λ y. p y ≡ false) before
  pub found : p x ≡ true

module _ {ℓ} {A : Type ℓ} where
  FirstOf-cons :
      (p : A → Bool) (y : A) (xs : List A) {x : A}
      → p y ≡ false
      → FirstOf p xs x
      → FirstOf p (y ∷ xs) x
  FirstOf-cons p y xs miss h = record {
    before = y ∷ h.before;
    after = h.after;
    split = ap (◌∷◌ y) h.split;
    earlier = (miss, h.earlier);
    found = h.found;
  }

  -- A search finds the first item that passes, or none does.
  pub find-cases :
      (p : A → Bool) (xs : List A)
      → ((find p xs ≡ none) × All (λ y. p y ≡ false) xs)
        ⊎ ((x : A) × (find p xs ≡ some x) × FirstOf p xs x)
  find-cases p [] = inl (refl, tt)
  find-cases p (y ∷ xs) = elim (Bool-cases (p y)) [
    | inl e ↦
        inr
          (y, rw e refl, record { before = []; after = xs; split = refl; earlier = tt; found = e })
    | inr e ↦ elim (find-cases p xs) [
      | inl (gone, rest) ↦ inl (rw e gone, (e, rest))
      | inr (x, there, first) ↦ inr (x, rw e there, FirstOf-cons p y xs e first)
    ]
  ]

  -- To search what a filter leaves is to search for both tests.
  pub find-filter :
      (p q : A → Bool) (xs : List A) → find q (filter p xs) ≡ find (λ x. p x && q x) xs
  find-filter p q [] = refl
  find-filter p q (x ∷ xs) = elim (Bool-cases (p x)) [
    | inl e ↦ rw (e, find-filter p q xs) refl
    | inr e ↦ rw (e, find-filter p q xs) refl
  ]

  pub filter-append :
      (p : A → Bool) (xs ys : List A) → filter p (xs ++ ys) ≡ filter p xs ++ filter p ys
  filter-append p [] ys = refl
  filter-append p (x ∷ xs) ys = elim (Bool-cases (p x)) [
    | inl e ↦ rw (e, filter-append p xs ys) refl
    | inr e ↦ rw (e, filter-append p xs ys) refl
  ]
