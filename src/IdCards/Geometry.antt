-- ===== src/IdCards/Geometry.antt =====
-- Where the cards lie on a page.
use schulealsstaat.Types.{Student}
use schulealsstaat.IdCards.Places.{IsSlot, Placed, IsReadable, each_student_once}
use schulealsstaat.IdCards.Drawing.{card_pictures, IsInside, card_pictures-IsInside}
use native.Mathlib.Decide.{ℕ_discrete, dec_lt}
use schulealsstaat.Base.{
  suc, List, [], ◌∷◌, All, length, ◌+◌, ◌≤◌, ◌≢◌, ◌<◌, ℕ, ◌⊎◌, inl, inr, arith,
}
use schulealsstaat.IdCards.{
  Texts, Slot, Card, render_students, page_w, page_h, card_w, card_h, xpos, ypos, index,
}

-- Cards on different pages, or with a border between them.
abbrev pub Apart : Slot → Slot → Type 0
Apart s u =
    (s.page ≢ u.page)
    ⊎ (xpos s + card_w ≤ xpos u)
    ⊎ (xpos u + card_w ≤ xpos s)
    ⊎ (ypos s + card_h ≤ ypos u)
    ⊎ (ypos u + card_h ≤ ypos s)

abbrev pub Fits : Slot → Type 0
Fits s = (xpos s + card_w ≤ page_w) × (ypos s + card_h ≤ page_h)

-- The card lies on its page, and its pictures lie on the card.
abbrev pub IsOnPage : Card → Type 0
IsOnPage c = Fits c.slot × All (IsInside c.slot) (card_pictures c.slot c.student)

slot-Fits : (s : Slot) → IsSlot s → Fits s
slot-Fits s h = ground arith

slots-Apart : (s u : Slot) → IsSlot s → IsSlot u → index s < index u → Apart s u
slots-Apart s u h g lt = elim (ℕ_discrete s.page u.page) [
  | yes e ↦ inr (elim (dec_lt s.x u.x) [
    | yes l ↦ inl (omega arith)
    | no l ↦ elim (dec_lt u.x s.x) [
      | yes m ↦ inr (inl (omega arith))
      | no m ↦ inr (inr (inl (omega arith)))
    ]
  ])
  | no e ↦ inl e
]

-- No card of a list overlaps a later one.
abbrev pub NoOverlap : List Card → Type 0
NoOverlap [] = Unit {0}
NoOverlap (c ∷ cs) = All (λ (c' : Card). Apart c.slot c'.slot) cs × NoOverlap cs

later-Apart :
    (c : Card) (k : ℕ) (cs : List Card) (sts : List Student)
    → IsSlot c.slot
    → index c.slot < k
    → Placed k cs sts
    → All (λ (c' : Card). Apart c.slot c'.slot) cs
later-Apart c k [] sts h lt p = tt
later-Apart c k (c' ∷ cs) [] h lt p = elim p [ ]
later-Apart c k (c' ∷ cs) (st ∷ sts) h lt (e, i, h', rest) = (
  slots-Apart c.slot c'.slot h h' (omega (arith, i)),
  later-Apart c (suc k) cs sts h (omega arith) rest,
)

Placed-NoOverlap :
    (k : ℕ) (cs : List Card) (sts : List Student) → Placed k cs sts → All IsOnPage cs × NoOverlap cs
Placed-NoOverlap k [] sts p = (tt, tt)
Placed-NoOverlap k (c ∷ cs) [] p = elim p [ ]
Placed-NoOverlap k (c ∷ cs) (st ∷ sts) (e, i, h, rest) =
    let (fits, none_overlaps) = Placed-NoOverlap (suc k) cs sts rest in
    (
      ((slot-Fits c.slot h, card_pictures-IsInside c.slot c.student), fits),
      (later-Apart c (suc k) cs sts h (omega (arith, i)) rest, none_overlaps),
    )

-- If every student of a list has the names that a card needs, every card that is printed lies on
-- its page, the card's pictures lie on the card, and no two cards of a page overlap.
pub cards_fit :
    (t : Texts) (fuel : ℕ) (list : List Student)
    → All (IsReadable t) list
    → length list < fuel
    → All IsOnPage (render_students t fuel list).cards
      × NoOverlap (render_students t fuel list).cards
cards_fit t fuel list readable enough =
    Placed-NoOverlap 0 (render_students t fuel list).cards list
      (each_student_once t fuel list readable enough).0
