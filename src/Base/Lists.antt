-- ===== src/Base/Lists.antt =====
-- Lists: the length over the native numbers, membership and "for all" by recursion, the filter of
-- a Boolean test, and a stable sort (`Array.prototype.sort`).
use Prim.Native.Nat.{ℕ, suc}
use mathlib.Core.Path.{◌≡◌, refl}
use mathlib.Core.Logic.{◌↔◌, ◌⊎◌, inl, inr}
use mathlib.Core.Bool.{Bool, true, false}
use mathlib.Core.Option.{Option, none, some}
use mathlib.Core.List.{List, [], ◌∷◌, ◌++◌}
use native.Mathlib.Omega.{arith}
use rif_relay_server.Base.Tests.{if◌then◌else◌, Bool-cases}

module _ {ℓ} {A : Type ℓ} where
  abbrev pub length : List A → ℕ
  length [] = 0
  length (x ∷ xs) = suc (length xs)

module _ {A : Type 0} where
  -- The value occurs in the list.
  abbrev pub In : A → List A → Type 0
  In a [] = ⊥
  In a (x ∷ xs) = (a ≡ x) ⊎ In a xs

  abbrev pub All : (A → Type 0) → List A → Type 0
  All P [] = Unit {0}
  All P (x ∷ xs) = P x × All P xs

  abbrev pub filter : (A → Bool) → List A → List A
  filter p [] = []
  filter p (x ∷ xs) = let rest = filter p xs in if p x then x ∷ rest else rest

  -- `Array.prototype.find`.
  abbrev pub find : (A → Bool) → List A → Option A
  find p [] = none
  find p (x ∷ xs) = let rest = find p xs in if p x then some x else rest

  pub All-at : (P : A → Type 0) (xs : List A) → All P xs → (a : A) → In a xs → P a
  All-at P [] h a m = elim m [ ]
  All-at P (x ∷ xs) h a (inl e) = rw e h.0
  All-at P (x ∷ xs) h a (inr m) = All-at P xs h.1 a m

  pub All-of : (P : A → Type 0) (xs : List A) → ((a : A) → In a xs → P a) → All P xs
  All-of P [] h = tt
  All-of P (x ∷ xs) h = (h x (inl refl), All-of P xs (λ a m. h a (inr m)))

  pub All-map : (P Q : A → Type 0) (xs : List A) → ((a : A) → P a → Q a) → All P xs → All Q xs
  All-map P Q [] f h = tt
  All-map P Q (x ∷ xs) f h = (f x h.0, All-map P Q xs f h.1)

  pub All-append : (P : A → Type 0) (xs ys : List A) → All P xs → All P ys → All P (xs ++ ys)
  All-append P [] ys h k = k
  All-append P (x ∷ xs) ys h k = (h.0, All-append P xs ys h.1 k)

  pub mem-filter :
      (p : A → Bool) (xs : List A) (a : A) → In a (filter p xs) → In a xs × (p a ≡ true)
  mem-filter p [] a m = elim m [ ]
  mem-filter p (x ∷ xs) a m = elim (Bool-cases (p x)) [
    | inl e ↦ split e (mem-filter p xs a) (rw (e, filter) at m)
    | inr e ↦ let (n, q) = mem-filter p xs a (rw (e, filter) at m) in (inr n, q)
  ]
    where
      split :
          p x ≡ true
          → (In a (filter p xs) → In a xs × (p a ≡ true))
          → (a ≡ x) ⊎ In a (filter p xs)
          → ((a ≡ x) ⊎ In a xs) × (p a ≡ true)
      split e ih (inl h) = (inl h, rw h e)
      split e ih (inr h) = let (n, q) = ih h in (inr n, q)

  pub mem_of_filter :
      (p : A → Bool) (xs : List A) (a : A) → In a xs → p a ≡ true → In a (filter p xs)
  mem_of_filter p [] a m e = m
  mem_of_filter p (x ∷ xs) a (inl h) e = rw (← h) (rw e (inl refl))
  mem_of_filter p (x ∷ xs) a (inr m) e = elim (Bool-cases (p x)) [
    | inl k ↦ rw k (inr (mem_of_filter p xs a m e))
    | inr k ↦ rw k (mem_of_filter p xs a m e)
  ]

  pub find-eq-none :
      (p : A → Bool) (xs : List A) → find p xs ≡ none → (a : A) → In a xs → p a ≡ false
  find-eq-none p [] e a m = elim m [ ]
  find-eq-none p (x ∷ xs) e a (inl h) = rw h (ground arith)
  find-eq-none p (x ∷ xs) e a (inr m) = find-eq-none p xs (ground arith) a m

  pub find-eq-some :
      (p : A → Bool) (xs : List A) (a : A) → find p xs ≡ some a → In a xs × (p a ≡ true)
  find-eq-some p [] a e = cc
  find-eq-some p (x ∷ xs) a e = elim (Bool-cases (p x)) [
    | inl k ↦ let h : a ≡ x = ground arith in (inl h, rw h k)
    | inr k ↦ let (m, q) = find-eq-some p xs a (ground arith) in (inr m, q)
  ]

-- The members of a joined list.
pub mem-append : {A : Type 0} (xs ys : List A) (a : A) → In a (xs ++ ys) ↔ (In a xs ⊎ In a ys)
mem-append [] ys a = (λ m. inr m, λ m. elim m [ inl k ↦ elim k [ ] | inr k ↦ k ])
mem-append (x ∷ xs) ys a =
    let (to, from) = mem-append xs ys a in
    (
      λ m. elim m [
        | inl e ↦ inl (inl e)
        | inr k ↦ elim (to k) [ inl l ↦ inl (inr l) | inr l ↦ inr l ]
      ],
      λ m. elim m [
        | inl k ↦ elim k [ inl e ↦ inl e | inr l ↦ inr (from (inl l)) ]
        | inr k ↦ inr (from (inr k))
      ],
    )

-- Reorders three alternatives.
rotate_or : {X Y Z W : Type 0} → (W → X ⊎ Z) → Y ⊎ W → X ⊎ (Y ⊎ Z)
rotate_or f (inl y) = inr (inl y)
rotate_or f (inr w) = elim (f w) [ inl x ↦ inl x | inr z ↦ inr (inr z) ]

front : {X Y Z W : Type 0} → (X ⊎ Z → W) → X ⊎ (Y ⊎ Z) → Y ⊎ W
front f (inl x) = inr (f (inl x))
front f (inr (inl y)) = inl y
front f (inr (inr z)) = inr (f (inr z))

-- `xs.sort(cmp)`, where `le a b` says that `cmp(a, b) <= 0`; equal elements keep their order.
module _ {A : Type 0} (le : A → A → Bool) where
  abbrev pub insert : A → List A → List A
  insert x [] = x ∷ []
  insert x (y ∷ ys) = let rest = insert x ys in if le x y then x ∷ y ∷ ys else y ∷ rest

  abbrev pub sort : List A → List A
  sort [] = []
  sort (x ∷ xs) = insert x (sort xs)

  mem-insert : (x : A) (ys : List A) (a : A) → In a (insert x ys) → (a ≡ x) ⊎ In a ys
  mem-insert x [] a m = m
  mem-insert x (y ∷ ys) a m = elim (Bool-cases (le x y)) [
    | inl k ↦ rw (k, insert) at m
    | inr k ↦ rotate_or (mem-insert x ys a) (rw (k, insert) at m)
  ]

  mem_of_insert : (x : A) (ys : List A) (a : A) → (a ≡ x) ⊎ In a ys → In a (insert x ys)
  mem_of_insert x [] a m = m
  mem_of_insert x (y ∷ ys) a m = elim (Bool-cases (le x y)) [
    | inl k ↦ rw k m
    | inr k ↦ rw k (front (mem_of_insert x ys a) m)
  ]

  -- A sorted list holds what the list held.
  pub mem-sort : (xs : List A) (a : A) → In a (sort xs) → In a xs
  mem-sort [] a m = m
  mem-sort (x ∷ xs) a m = elim (mem-insert x (sort xs) a m) [
    | inl e ↦ inl e
    | inr n ↦ inr (mem-sort xs a n)
  ]

  pub mem_of_sort : (xs : List A) (a : A) → In a xs → In a (sort xs)
  mem_of_sort [] a m = m
  mem_of_sort (x ∷ xs) a (inl e) = mem_of_insert x (sort xs) a (inl e)
  mem_of_sort (x ∷ xs) a (inr m) = mem_of_insert x (sort xs) a (inr (mem_of_sort xs a m))

  -- Sorted: no element is to be moved before one that stands ahead of it.
  abbrev pub IsSorted : List A → Type 0
  IsSorted [] = Unit
  IsSorted (x ∷ xs) = All (λ y. le x y ≡ true) xs × IsSorted xs

  module _ (total : (a b : A) → le a b ≡ false → le b a ≡ true)
      (trans : (a b c : A) → le a b ≡ true → le b c ≡ true → le a c ≡ true) where
    insert-IsSorted : (x : A) (ys : List A) → IsSorted ys → IsSorted (insert x ys)
    insert-IsSorted x [] h = (tt, tt)
    insert-IsSorted x (y ∷ ys) h = elim (Bool-cases (le x y)) [
      | inl k ↦ rw k ((k, All-of _ ys (λ a m. trans x y a k (All-at _ ys h.0 a m))), h)
      | inr k ↦ rw k (
        All-of _ (insert x ys) (λ a m. elim (mem-insert x ys a m) [
          | inl e ↦ rw e (total x y k)
          | inr n ↦ All-at _ ys h.0 a n
        ]),
        insert-IsSorted x ys h.1,
      )
    ]

    pub sort-IsSorted : (xs : List A) → IsSorted (sort xs)
    sort-IsSorted [] = tt
    sort-IsSorted (x ∷ xs) = insert-IsSorted x (sort xs) (sort-IsSorted xs)
