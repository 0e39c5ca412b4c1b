-- ===== src/EntryCheck/Counts.antt =====
-- How often a QR-ID is in a list, and what the operations of the entry check do to that.
use schulealsstaat.Base.{
  ℕ, zero, suc, ◌+◌, ◌≡◌, refl, sym, ap, ◌∙◌, String, true, false, none, some, List, [], ◌∷◌, ◌++◌,
  get_elem?, str_eq, str_eq_iff, ◌≤◌, if_cases, if◌then◌else◌, Bool-cases, inl, inr, arith,
}
use schulealsstaat.EntryCheck.{contains, drop_first, remove_at}

abbrev pub one : String → String → ℕ
one q x = if str_eq q x then 1 else 0

abbrev pub count : String → List String → ℕ
count q [] = 0
count q (x ∷ xs) = one q x + count q xs

abbrev pub Distinct : List String → Type 0
Distinct xs = (q : String) → count q xs ≤ 1

pub count-append : (q x : String) (xs : List String) → count q (xs ++ x ∷ []) ≡ count q xs + one q x
count-append q x [] = omega arith
count-append q x (y ∷ xs) = omega (arith, count-append q x xs)

one_of : (q x : String) → str_eq q x ≡ true → one q x ≡ 1
one_of q x e = ap (λ b. if b then 1 else 0) e

none_of : (q x : String) → str_eq q x ≡ false → one q x ≡ 0
none_of q x e = ap (λ b. if b then 1 else 0) e

same : (q : String) → str_eq q q ≡ true
same q = (str_eq_iff q q).1 refl

count-contains : (q : String) (xs : List String) → contains q xs ≡ false → count q xs ≡ 0
count-contains q [] h = refl
count-contains q (x ∷ xs) h = elim (Bool-cases (str_eq q x)) [
  | inl e ↦ cc (sym (ap (λ b. if b then true else contains q xs) e) ∙ h)
  | inr e ↦ omega (
    arith,
    none_of q x e,
    count-contains q xs (sym (ap (λ b. if b then true else contains q xs) e) ∙ h),
  )
]

pub add-Distinct :
    (q : String) (xs : List String) → contains q xs ≡ false → Distinct xs → Distinct (xs ++ q ∷ [])
add-Distinct q xs h d = λ q'. elim (Bool-cases (str_eq q' q)) [
  | inl e ↦ omega (
    arith,
    count-append q' q xs,
    one_of q' q e,
    count-contains q' xs (ap (λ r. contains r xs) ((str_eq_iff q' q).0 e) ∙ h),
  )
  | inr e ↦ omega (arith, count-append q' q xs, none_of q' q e, d q')
]

count-get : (q : String) (xs : List String) (i : ℕ) → get_elem? xs i ≡ some q → 1 ≤ count q xs
count-get q [] i e = cc
count-get q (x ∷ xs) zero e =
    omega (arith, one_of q x (ap (λ o. elim o [ none ↦ true | some y ↦ str_eq q y ]) e ∙ same q))
count-get q (x ∷ xs) (suc i) e = omega (arith, count-get q xs i e)

-- In a list without repetitions, the first occurrence is the only one.
pub drop-remove :
    (q : String) (xs : List String) (i : ℕ)
    → get_elem? xs i ≡ some q
    → Distinct xs
    → drop_first q xs ≡ remove_at i xs
drop-remove q [] i e d = refl
drop-remove q (x ∷ xs) zero e d =
    if_cases (λ r. r ≡ xs) (str_eq q x) (λ _. refl)
      (λ differs.
        cc (differs, sym (ap (λ o. elim o [ none ↦ true | some y ↦ str_eq q y ]) e ∙ same q)))
drop-remove q (x ∷ xs) (suc i) e d =
    if_cases (λ r. r ≡ x ∷ remove_at i xs) (str_eq q x)
      (λ b. absurd (omega (arith, one_of q x b, count-get q xs i e, d q)))
      (λ _. ap (λ r. x ∷ r) (drop-remove q xs i e (λ r. omega (arith, d r))))

pub count-remove :
    (q r : String) (xs : List String) (i : ℕ)
    → get_elem? xs i ≡ some r
    → count q xs ≡ one q r + count q (remove_at i xs)
count-remove q r [] i e = cc
count-remove q r (x ∷ xs) zero e =
    ap (λ o. elim o [ none ↦ count q (x ∷ xs) | some y ↦ one q y + count q xs ]) e
count-remove q r (x ∷ xs) (suc i) e = omega (arith, count-remove q r xs i e)

pub contains-get :
    (q : String) (xs : List String) (i : ℕ) → get_elem? xs i ≡ some q → contains q xs ≡ true
contains-get q xs i e = elim (Bool-cases (contains q xs)) [
  | inl b ↦ b
  | inr b ↦ absurd (omega (arith, count-get q xs i e, count-contains q xs b))
]
