-- ===== src/Base/Members.antt =====
-- Membership in the lists that the Boolean tests make.
use mathlib.Core.Bool.{Bool, true, false}
use mathlib.Core.List.{List, [], ◌∷◌, ◌++◌, map}
use mathlib.Core.Logic.{◌⊎◌, inl, inr}
use mathlib.Core.Option.{some}
use mathlib.Core.Path.{◌≡◌, refl, ap}
use native.Mathlib.Omega.{arith}
use stateful_core.Base.Tests.{if◌then◌else◌, Bool-cases}
use stateful_core.Base.Lists.{any, filter, find, update_where, Mem, insert_by, sort_by}

module _ {A : Type 0} where
  pub Mem-filter :
      (p : A → Bool) (a : A) (xs : List A) → Mem a (filter p xs) → Mem a xs × (p a ≡ true)
  Mem-filter p a [] m = elim m [ ]
  Mem-filter p a (x ∷ xs) m = ground (arith, Mem-filter p a xs)

  pub filter-Mem :
      (p : A → Bool) (a : A) (xs : List A) → Mem a xs → p a ≡ true → Mem a (filter p xs)
  filter-Mem p a [] m h = elim m [ ]
  filter-Mem p a (x ∷ xs) m h = ground (arith, filter-Mem p a xs)

  pub any-Mem : (p : A → Bool) (a : A) (xs : List A) → Mem a xs → p a ≡ true → any p xs ≡ true
  any-Mem p a [] m h = elim m [ ]
  any-Mem p a (x ∷ xs) m h = ground (arith, any-Mem p a xs)

  pub Mem-any : (p : A → Bool) (a : A) (xs : List A) → Mem a xs → any p xs ≡ false → p a ≡ false
  Mem-any p a [] m h = elim m [ ]
  Mem-any p a (x ∷ xs) m h = ground (arith, Mem-any p a xs)

  pub any-found : (p : A → Bool) (xs : List A) → any p xs ≡ true → (x : A) × Mem x xs × (p x ≡ true)
  any-found p [] h = cc
  any-found p (x ∷ xs) h = elim (Bool-cases (p x)) [
    | inl here ↦ (x, inl refl, here)
    | inr not_here ↦ let (y, m, e) = any-found p xs (ground arith) in (y, inr m, e)
  ]

  pub Mem-append : (a : A) (xs ys : List A) → Mem a (xs ++ ys) → Mem a xs ⊎ Mem a ys
  Mem-append a [] ys m = inr m
  Mem-append a (x ∷ xs) ys m = ground (arith, Mem-append a xs ys)

  pub append-Mem : (a : A) (xs ys : List A) → Mem a xs ⊎ Mem a ys → Mem a (xs ++ ys)
  append-Mem a [] ys m = ground arith
  append-Mem a (x ∷ xs) ys m = ground (arith, append-Mem a xs ys)

  pub Mem-find : (p : A → Bool) (a : A) (xs : List A) → find p xs ≡ some a → Mem a xs × (p a ≡ true)
  Mem-find p a [] h = cc
  Mem-find p a (x ∷ xs) h = ground (arith, Mem-find p a xs)

  pub Mem-update_where :
      (p : A → Bool) (f : A → A) (a : A) (xs : List A)
      → Mem a (update_where p f xs)
      → (x : A) × Mem x xs × (a ≡ (if p x then f x else x))
  Mem-update_where p f a [] m = elim m [ ]
  Mem-update_where p f a (x ∷ xs) (inl h) = (x, inl refl, h)
  Mem-update_where p f a (x ∷ xs) (inr m) =
      let (y, my, e) = Mem-update_where p f a xs m in (y, inr my, e)

  pub update_where-Mem :
      (p : A → Bool) (f : A → A) (x : A) (xs : List A)
      → Mem x xs
      → Mem (if p x then f x else x) (update_where p f xs)
  update_where-Mem p f a [] m = elim m [ ]
  update_where-Mem p f a (x ∷ xs) (inl h) = inl (ap (λ y. if p y then f y else y) h)
  update_where-Mem p f a (x ∷ xs) (inr m) = inr (update_where-Mem p f a xs m)

  module _ (le : A → A → Bool) where
    Mem-insert_by : (a x : A) (xs : List A) → Mem a (insert_by le x xs) → (a ≡ x) ⊎ Mem a xs
    unfolding insert_by
    Mem-insert_by a x [] m = ground arith
    Mem-insert_by a x (y ∷ ys) m = ground (arith, Mem-insert_by a x ys)

    pub Mem-sort_by : (a : A) (xs : List A) → Mem a (sort_by le xs) → Mem a xs
    unfolding sort_by
    Mem-sort_by a [] m = elim m [ ]
    Mem-sort_by a (x ∷ xs) m = ground (arith, Mem-insert_by a x (sort_by le xs) m, Mem-sort_by a xs)

    insert_by-Mem : (a x : A) (xs : List A) → (a ≡ x) ⊎ Mem a xs → Mem a (insert_by le x xs)
    unfolding insert_by
    insert_by-Mem a x [] m = ground arith
    insert_by-Mem a x (y ∷ ys) m = ground (arith, insert_by-Mem a x ys)

    pub sort_by-Mem : (a : A) (xs : List A) → Mem a xs → Mem a (sort_by le xs)
    unfolding sort_by
    sort_by-Mem a [] m = elim m [ ]
    sort_by-Mem a (x ∷ xs) m = ground (arith, insert_by-Mem a x (sort_by le xs), sort_by-Mem a xs)

pub Mem-map :
    {A B : Type 0} (f : A → B) (b : B) (xs : List A)
    → Mem b (map f xs)
    → (x : A) × Mem x xs × (b ≡ f x)
Mem-map f b [] m = elim m [ ]
Mem-map f b (x ∷ xs) (inl h) = (x, inl refl, h)
Mem-map f b (x ∷ xs) (inr m) = let (y, my, e) = Mem-map f b xs m in (y, inr my, e)

pub map-Mem : {A B : Type 0} (f : A → B) (x : A) (xs : List A) → Mem x xs → Mem (f x) (map f xs)
map-Mem f a [] m = elim m [ ]
map-Mem f a (x ∷ xs) (inl h) = inl (ap f h)
map-Mem f a (x ∷ xs) (inr m) = inr (map-Mem f a xs m)
