-- ===== src/Statement/Sums.antt =====
-- Sums over lists, and what the operations on lists do to them.
use schulealsstaat.Base.{
  ◌≡◌, refl, ap, ◌∙◌, Bool, List, [], ◌∷◌, ◌++◌, map, keep, sort, insert_sorted, inl, inr,
  Bool-cases,
}
use schulealsstaat.Base.Int.{ℤ, pos, ◌+ℤ◌, int_laws}
use schulealsstaat.Db.Balance.{amount_if}

unfoldable pub sum_of {ℓ} : {A : Type ℓ} → (A → ℤ) → List A → ℤ
sum_of f [] = pos 0
sum_of f (a ∷ as') = sum_of f as' +ℤ f a

pub sum_of-map {ℓ κ} :
    {A : Type ℓ} {B : Type κ} (f : B → ℤ) (g : A → B) (xs : List A)
    → sum_of f (map g xs) ≡ sum_of (λ a. f (g a)) xs
unfolding sum_of
sum_of-map f g [] = refl
sum_of-map f g (x ∷ xs) = ap (λ s. s +ℤ f (g x)) (sum_of-map f g xs)

pub sum_of-append {ℓ} :
    {A : Type ℓ} (f : A → ℤ) (xs ys : List A) → sum_of f (xs ++ ys) ≡ sum_of f xs +ℤ sum_of f ys
unfolding sum_of
sum_of-append f [] ys = omega int_laws
sum_of-append f (x ∷ xs) ys = rw (sum_of-append f xs ys) (omega int_laws)

pub sum_of-keep {ℓ} :
    {A : Type ℓ} (f : A → ℤ) (test : A → Bool) (xs : List A)
    → sum_of f (keep test xs) ≡ sum_of (λ a. amount_if (test a) (f a)) xs
unfolding sum_of
sum_of-keep f test [] = refl
sum_of-keep f test (x ∷ xs) = elim (Bool-cases (test x)) [
  | inl e ↦ rw (e, sum_of-keep f test xs) refl
  | inr e ↦ rw (e, sum_of-keep f test xs) (omega int_laws)
]

pub sum_of-insert {ℓ} :
    {A : Type ℓ} (f : A → ℤ) (after : A → A → Bool) (a : A) (xs : List A)
    → sum_of f (insert_sorted after a xs) ≡ sum_of f xs +ℤ f a
unfolding sum_of
sum_of-insert f after a [] = refl
sum_of-insert f after a (x ∷ xs) = elim (Bool-cases (after a x)) [
  | inl e ↦ rw (e, sum_of-insert f after a xs) (omega int_laws)
  | inr e ↦ rw e refl
]

pub sum_of-sort {ℓ} :
    {A : Type ℓ} (f : A → ℤ) (after : A → A → Bool) (xs : List A)
    → sum_of f (sort after xs) ≡ sum_of f xs
unfolding sum_of
sum_of-sort f after [] = refl
sum_of-sort f after (x ∷ xs) =
    sum_of-insert f after x (sort after xs) ∙ ap (λ s. s +ℤ f x) (sum_of-sort f after xs)
