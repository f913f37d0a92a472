-- ===== src/Prelude/Every.antt =====
-- What every element of a list has, every element of a sorted, filtered or mapped one has.
use Prim.Native.Nat.{ℕ, zero, suc}
use mathlib.Core.Path.{◌≡◌, refl}
use mathlib.Core.Bool.{Bool, true}
use mathlib.Core.Logic.{◌⊎◌, inl, inr}
use mathlib.Core.List.{List, [], ◌∷◌, map, Mem, mem-cons_self, mem-cons_of_mem}
use urth.Prelude.Tests.{Bool-cases}
use urth.Prelude.Lists.{All, take, where_, insert, sort_stable}

module _ {ℓ κ} {A : Type ℓ} (P : A → Type κ) where
  insert-All :
      (less : A → A → Bool) (x : A) (xs : List A) → P x → All P xs → All P (insert less x xs)
  insert-All less x [] p h = (p, h)
  insert-All less x (y ∷ ys) p (q, h) = elim (Bool-cases (less y x)) [
    | inl e ↦ rw e (q, insert-All less x ys p h)
    | inr e ↦ rw e (p, (q, h))
  ]

  pub sort_stable-All : (less : A → A → Bool) (xs : List A) → All P xs → All P (sort_stable less xs)
  sort_stable-All less [] h = h
  sort_stable-All less (x ∷ xs) (p, h) =
      insert-All less x (sort_stable less xs) p (sort_stable-All less xs h)

  pub where-All : (test : A → Bool) (xs : List A) → All P xs → All P (where_ test xs)
  where-All test [] h = h
  where-All test (x ∷ xs) (p, h) = elim (Bool-cases (test x)) [
    | inl e ↦ rw e (p, where-All test xs h)
    | inr e ↦ rw e (where-All test xs h)
  ]

pub List-cases {ℓ} :
    {A : Type ℓ} (xs : List A) → (xs ≡ []) ⊎ ((y : A) × (ys : List A) × (xs ≡ y ∷ ys))
List-cases [] = inl refl
List-cases (y ∷ ys) = inr (y, ys, refl)

module _ {ℓ κ} {A : Type ℓ} (P : A → Type κ) where
  pub take-All : (n : ℕ) (xs : List A) → All P xs → All P (take n xs)
  take-All zero xs h = tt
  take-All (suc n) [] h = tt
  take-All (suc n) (x ∷ xs) (p, h) = (p, take-All n xs h)

pub map-All {ℓ ℓ' κ} :
    {A : Type ℓ} {B : Type ℓ'} (P : B → Type κ) (f : A → B) (xs : List A)
    → All (λ x. P (f x)) xs
    → All P (map f xs)
map-All P f [] h = tt
map-All P f (x ∷ xs) (p, h) = (p, map-All P f xs h)

pub where-both {ℓ κ} :
    {A : Type ℓ} (P : A → Type κ) (test : A → Bool) (xs : List A)
    → All P xs
    → All (λ x. P x × (test x ≡ true)) (where_ test xs)
where-both P test [] h = tt
where-both P test (x ∷ xs) (p, h) = elim (Bool-cases (test x)) [
  | inl e ↦ rw e ((p, e), where-both P test xs h)
  | inr e ↦ rw e (where-both P test xs h)
]

pub weaken-All {ℓ κ κ'} :
    {A : Type ℓ} (P : A → Type κ) (Q : A → Type κ') (xs : List A)
    → ((x : A) → P x → Q x)
    → All P xs
    → All Q xs
weaken-All P Q [] f h = tt
weaken-All P Q (x ∷ xs) f (p, h) = (f x p, weaken-All P Q xs f h)

pub where-holds {ℓ} :
    {A : Type ℓ} (test : A → Bool) (xs : List A) → All (λ x. test x ≡ true) (where_ test xs)
where-holds test [] = tt
where-holds test (x ∷ xs) = elim (Bool-cases (test x)) [
  | inl e ↦ rw e (e, where-holds test xs)
  | inr e ↦ rw e (where-holds test xs)
]

pub All-Mem {ℓ} : {A : Type ℓ} (xs : List A) → All (λ x. Mem x xs) xs
All-Mem [] = tt
All-Mem (x ∷ xs) = (mem-cons_self, weaken-All _ _ xs (λ y m. mem-cons_of_mem x m) (All-Mem xs))
