-- ===== src/IdCards/Places.antt =====
-- client/adminpanel/site/idcards/scripts.js: the cards of a list, and the loops over the pages.
use schulealsstaat.Base.{
  ℕ, zero, suc, ◌+◌, ◌*◌, ◌≤◌, ◌<◌, ◌≡◌, refl, Option, none, some, List, [], ◌∷◌, get_elem?, length,
  drop, All, arith, sym, subst, ◌⊎◌, inl, inr,
}
use schulealsstaat.Types.{Student}
use schulealsstaat.IdCards.{
  Texts, Slot, Card, Readable, Printout, returned, amount_x, amount_y, index, next,
  student_readable, with_card, with_element, render_from, render_students,
}

-- The counters that the loops may have.
abbrev pub IsSlot : Slot → Type 0
IsSlot s = (s.x < amount_x) × (s.y < amount_y)

index-next : (s : Slot) → IsSlot s → index (next s) ≡ suc (index s)
unfolding next
index-next s h = ground arith

next-IsSlot : (s : Slot) → IsSlot s → IsSlot (next s)
unfolding next
next-IsSlot s h = ground arith

-- The cards of a list of students, from a number on: one for each, in order, in the place that is
-- its number counted in rows and pages.
abbrev pub Placed : ℕ → List Card → List Student → Type 0
Placed k [] [] = Unit {0}
Placed k [] (st ∷ sts) = ⊥
Placed k (c ∷ cs) [] = ⊥
Placed k (c ∷ cs) (st ∷ sts) =
    (c.student ≡ st) × (index c.slot ≡ k) × IsSlot c.slot × Placed (suc k) cs sts

abbrev pub IsReadable : Texts → Student → Type 0
IsReadable t st = (r : Readable) × (student_readable t st ≡ some r)

abbrev At {ℓ} : {A : Type ℓ} → List A → ℕ → Type ℓ
At {A = A} list k =
    ((get_elem? list k ≡ none) × (drop k list ≡ []) × (length list ≤ k))
    ⊎ ((a : A) × (get_elem? list k ≡ some a)
        × (drop k list ≡ a ∷ drop (suc k) list)
        × (k < length list))

at {ℓ} : {A : Type ℓ} (list : List A) (k : ℕ) → At list k
at [] zero = inl (refl, refl, omega arith)
at [] (suc k) = inl (refl, refl, omega arith)
at (a ∷ list) zero = inr (a, refl, refl, omega arith)
at (a ∷ list) (suc k) = elim (at list k) [
  | inl (e, d, l) ↦ inl (e, d, omega (arith, l))
  | inr (b, e, d, l) ↦ inr (b, e, d, omega (arith, l))
]

All-at {ℓ κ} :
    {A : Type ℓ} (P : A → Type κ) (list : List A) (k : ℕ) (a : A)
    → get_elem? list k ≡ some a
    → All P list
    → P a
All-at P [] k a e h = cc
All-at P (b ∷ list) zero a e (h, hs) = let same : b ≡ a = cc in subst P same h
All-at P (b ∷ list) (suc k) a e (h, hs) = All-at P list k a e hs

-- What a run of the loops from some counters on prints of the rest of a list.
abbrev Prints : ℕ → Slot → List Student → Printout → Type 0
Prints n s rest p =
    Placed (index s) p.cards rest
    × (p.end ≡ returned)
    × (p.added_pages * (amount_x * amount_y) ≤ n)
    × (n < (p.added_pages + 1) * (amount_x * amount_y))

printed :
    (t : Texts) (n : ℕ) (s : Slot) (st : Student) (rest : List Student) (p : Printout)
    → IsSlot s
    → IsReadable t st
    → Prints n (next s) rest p
    → Prints n s (st ∷ rest) (with_element t s (some st) p)
printed t n s st rest p h (r, q) (placed, end, begun, full) =
    subst (λ o. Prints n s (st ∷ rest) (with_card s st o p)) (sym q)
      (
        (refl, refl, h, subst (λ k. Placed k p.cards rest) (index-next s h) placed),
        end,
        begun,
        full,
      )

render_from-Prints :
    (t : Texts) (fuel : ℕ) (list : List Student) (s : Slot)
    → IsSlot s
    → All (IsReadable t) list
    → index s ≤ length list
    → length list < fuel + index s
    → Prints (length list) s (drop (index s) list) (render_from t fuel list s)
unfolding render_from
render_from-Prints t zero list s h r le enough = absurd (omega arith)
render_from-Prints t (suc fuel) list s h r le enough =
    let p = render_from t fuel list (next s) in
    let Goal : List Student → Option Student → Type 0 =
      λ rest o. Prints (length list) s rest (with_element t s o p) in
    elim (at list (index s)) [
      | inl (e, d, l) ↦
          subst (λ o. Goal (drop (index s) list) o) (sym e)
            (subst (λ rest. Goal rest none) (sym d)
              (tt, refl, omega (arith, h.0, h.1), omega (arith, h.0, h.1)))
      | inr (st, e, d, l) ↦
          let step = index-next s h in
          let tail = drop (suc (index s)) list in
          let later =
            render_from-Prints t fuel list (next s) (next-IsSlot s h) r (omega (arith, step, l))
              (omega (arith, step, enough)) in
          subst (λ o. Goal (drop (index s) list) o) (sym e)
            (subst (λ rest. Goal rest (some st)) (sym d)
              (printed t (length list) s st tail p h (All-at (IsReadable t) list (index s) st e r)
                (subst (λ k. Prints (length list) (next s) (drop k list) p) step later)))
    ]

-- If every student of a list has the names that a card needs, and the fuel is more than the length
-- of the list, the loops return. Every student has exactly one card, in the order of the list: the
-- card with the number k, counted from 0, is in row (k % 15) / 3 and column k % 3 of page k / 15. As
-- many pages are added to the first one as can be filled with 15 cards each.
pub each_student_once :
    (t : Texts) (fuel : ℕ) (list : List Student)
    → All (IsReadable t) list
    → length list < fuel
    → let p = render_students t fuel list in
      Placed 0 p.cards list
      × (p.end ≡ returned)
      × (p.added_pages * 15 ≤ length list)
      × (length list < (p.added_pages + 1) * 15)
unfolding render_students
each_student_once t fuel list r enough =
    render_from-Prints t fuel list (record { page = 0; y = 0; x = 0 }) (omega arith, omega arith) r
      (omega arith) (omega arith)
