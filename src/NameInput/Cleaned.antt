-- ===== src/NameInput/Cleaned.antt =====
-- client/registration/site/scripts.js: the two loops that clean a name.
use schulealsstaat.Base.{
  ℕ, zero, suc, ◌≤◌, ◌<◌, ◌≡◌, refl, sym, ap, ◌∙◌, Bool, true, false, not, ◌&&◌, List, [], ◌∷◌,
  ◌==◌, any, keep, length, arith, inl, inr, Bool-cases, if◌then◌else◌,
}
use schulealsstaat.NameInput.{
  space, starts_with_space, has_double_space, replace_double_space, remove_whitespace,
  delete_illegal, repeatedly,
}

-- One space for each run of spaces.
unfoldable pub squeezed : List ℕ → List ℕ
squeezed [] = []
squeezed (c ∷ cs) =
    let rest = squeezed cs in if c == space && starts_with_space cs then rest else c ∷ rest

starts-replace : (cs : List ℕ) → starts_with_space (replace_double_space cs) ≡ starts_with_space cs
unfolding replace_double_space
starts-replace [] = refl
starts-replace (c ∷ []) = ground arith
starts-replace (c ∷ d ∷ ds) = ground arith

squeezed-replace : (cs : List ℕ) → squeezed (replace_double_space cs) ≡ squeezed cs
unfolding squeezed replace_double_space
squeezed-replace [] = refl
squeezed-replace (c ∷ cs) = elim (Bool-cases (c == space && starts_with_space cs)) [
  | inl e ↦ rw e refl
  | inr e ↦ rw (e, starts-replace cs, e, squeezed-replace cs) refl
]

squeezed-done : (cs : List ℕ) → has_double_space cs ≡ false → squeezed cs ≡ cs
unfolding squeezed has_double_space
squeezed-done [] h = refl
squeezed-done (c ∷ cs) h = elim (Bool-cases (c == space && starts_with_space cs)) [
  | inl e ↦ ground arith
  | inr e ↦ rw e (ap (λ rest. c ∷ rest) (squeezed-done cs (ground arith)))
]

length-replace :
    (cs : List ℕ) → has_double_space cs ≡ true → suc (length (replace_double_space cs)) ≡ length cs
unfolding has_double_space replace_double_space
length-replace [] h = cc
length-replace (c ∷ cs) h = elim (Bool-cases (c == space && starts_with_space cs)) [
  | inl e ↦ rw e refl
  | inr e ↦ rw e (ap suc (length-replace cs (ground arith)))
]

remove_whitespace-squeezed :
    (fuel : ℕ) (cs : List ℕ) → length cs ≤ fuel → remove_whitespace fuel cs ≡ squeezed cs
unfolding remove_whitespace squeezed
remove_whitespace-squeezed zero [] h = refl
remove_whitespace-squeezed zero (c ∷ cs) h = ground arith
remove_whitespace-squeezed (suc fuel) cs h = elim (Bool-cases (has_double_space cs)) [
  | inl e ↦ rw e (
      remove_whitespace-squeezed fuel (replace_double_space cs) (omega (arith, length-replace cs e))
      ∙ squeezed-replace cs)
  | inr e ↦ rw e (sym (squeezed-done cs e))
]

starts-squeezed : (cs : List ℕ) → starts_with_space (squeezed cs) ≡ starts_with_space cs
unfolding squeezed
starts-squeezed [] = refl
starts-squeezed (c ∷ []) = ground arith
starts-squeezed (c ∷ d ∷ ds) = ground (arith, starts-squeezed (d ∷ ds))

single_spaces : (cs : List ℕ) → has_double_space (squeezed cs) ≡ false
unfolding squeezed has_double_space
single_spaces [] = refl
single_spaces (c ∷ cs) = elim (Bool-cases (c == space && starts_with_space cs)) [
  | inl e ↦ rw e (single_spaces cs)
  | inr e ↦ rw (e, starts-squeezed cs, e, single_spaces cs) refl
]

-- The loop over double spaces ends after as many rounds as the text is long at most, and leaves the
-- text with one space for each run of spaces, which has no double space.
pub remove_whitespace_ends :
    (fuel : ℕ) (cs : List ℕ)
    → length cs ≤ fuel
    → (remove_whitespace fuel cs ≡ squeezed cs) × (has_double_space (squeezed cs) ≡ false)
remove_whitespace_ends fuel cs h = (remove_whitespace-squeezed fuel cs h, single_spaces cs)

module _ (legal : ℕ → Bool) where
  abbrev illegal : ℕ → Bool
  illegal c = not (legal c)

  keep-delete : (cs : List ℕ) → keep legal (delete_illegal legal cs) ≡ keep legal cs
  unfolding delete_illegal
  keep-delete [] = refl
  keep-delete (c ∷ []) = ground arith
  keep-delete (c ∷ d ∷ ds) = ground (arith, keep-delete (d ∷ ds), keep-delete ds)

  delete-legal : (cs : List ℕ) → any illegal cs ≡ false → delete_illegal legal cs ≡ cs
  unfolding delete_illegal
  delete-legal [] h = refl
  delete-legal (c ∷ []) h = ground arith
  delete-legal (c ∷ d ∷ ds) h = ground (arith, delete-legal (d ∷ ds))

  keep-legal : (cs : List ℕ) → any illegal cs ≡ false → keep legal cs ≡ cs
  keep-legal [] h = refl
  keep-legal (c ∷ cs) h = ground (arith, keep-legal cs)

  length-delete-le : (cs : List ℕ) → length (delete_illegal legal cs) ≤ length cs
  unfolding delete_illegal
  length-delete-le [] = omega arith
  length-delete-le (c ∷ []) = ground arith
  length-delete-le (c ∷ d ∷ ds) = ground (arith, length-delete-le (d ∷ ds), length-delete-le ds)

  length-delete :
      (cs : List ℕ) → any illegal cs ≡ true → length (delete_illegal legal cs) < length cs
  unfolding delete_illegal
  length-delete [] h = cc
  length-delete (c ∷ []) h = ground arith
  length-delete (c ∷ d ∷ ds) h = ground (arith, length-delete (d ∷ ds), length-delete-le ds)

  repeatedly-same :
      (n : ℕ) (cs : List ℕ)
      → delete_illegal legal cs ≡ cs
      → repeatedly n (delete_illegal legal) cs ≡ cs
  unfolding repeatedly
  repeatedly-same zero cs h = refl
  repeatedly-same (suc n) cs h = ap (repeatedly n (delete_illegal legal)) h ∙ repeatedly-same n cs h

  -- One run of the loop over the legal characters can leave illegal ones; as many runs as the text is
  -- long, one after the other, leave exactly the legal ones, in their order.
  sanitizing_settles :
      (n : ℕ) (cs : List ℕ) → length cs ≤ n → repeatedly n (delete_illegal legal) cs ≡ keep legal cs
  unfolding repeatedly
  sanitizing_settles zero [] h = refl
  sanitizing_settles zero (c ∷ cs) h = ground arith
  sanitizing_settles (suc n) cs h = elim (Bool-cases (any illegal cs)) [
    | inl e ↦
        sanitizing_settles n (delete_illegal legal cs) (omega (arith, length-delete cs e))
        ∙ keep-delete cs
    | inr e ↦
        let done = delete-legal cs e in repeatedly-same (suc n) cs done ∙ sym (keep-legal cs e)
  ]
