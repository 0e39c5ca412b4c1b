-- ===== src/IdCards/Pictures.antt =====
-- The pictures that a document waits for before it is shown.
use schulealsstaat.Base.{
  ℕ, zero, suc, ◌⊎◌, inl, inr, All, ◌+◌, ◌≡◌, refl, ap, ◌∙◌, Bool, true, false, List, [], ◌∷◌, ◌++◌,
  arith, if◌then◌else◌,
}
use schulealsstaat.Base.Int.{ℤ, pos, negsuc, ◌-ℤ◌, int_laws}

-- `passpics_to_load`, which is one variable for all documents; the queries to the webcam server that
-- are not answered; the pictures that the browser decodes; and the documents whose interval runs
-- or that are shown, each with a number.
pub record Loading : Type 0 where
  pub passpics_to_load : ℤ
  pub asked : ℕ
  pub decoding : ℕ
  pub waiting : List ℕ
  pub shown : List ℕ

abbrev pub opened : Loading
opened = record { passpics_to_load = pos 0; asked = 0; decoding = 0; waiting = []; shown = [] }

pub data Event : Type 0 where
  -- `makepdf` for a list with a number of pictures
  makes : ℕ → ℕ → Event
  -- the answer of the webcam server: no picture, or one that is decoded
  answers_empty answers_picture decoded : Event
  -- a round of all intervals
  ticks : Event

abbrev pub is_zero : ℤ → Bool
is_zero (pos zero) = true
is_zero (pos (suc n)) = false
is_zero (negsuc n) = false

-- `makepdf`: `render_students` sets the counter to 0 and counts the pictures.
unfoldable pub make : ℕ → ℕ → Loading → Loading
make number pictures l = record l {
  passpics_to_load = pos pictures;
  asked = l.asked + pictures;
  waiting = l.waiting ++ number ∷ [];
}

-- The function handed to `webcamserv_get`, with the number of queries that have no answer yet.
abbrev pub take_answer : ℕ → Bool → Loading → Loading
take_answer zero empty l = l
take_answer (suc n) true l = record l { asked = n; passpics_to_load = l.passpics_to_load -ℤ pos 1 }
take_answer (suc n) false l = record l { asked = n; decoding = suc l.decoding }

unfoldable pub on_answer : Bool → Loading → Loading
on_answer empty l = take_answer l.asked empty l

-- The function handed to `toJPEG`, with the number of pictures that are decoded.
abbrev pub take_jpeg : ℕ → Loading → Loading
take_jpeg zero l = l
take_jpeg (suc n) l = record l { decoding = n; passpics_to_load = l.passpics_to_load -ℤ pos 1 }

unfoldable pub on_jpeg : Loading → Loading
on_jpeg l = take_jpeg l.decoding l

-- The rounds of the intervals.
unfoldable pub tick : Loading → Loading
tick l =
    if is_zero l.passpics_to_load
    then record l { waiting = []; shown = l.shown ++ l.waiting }
    else l

unfoldable pub step : Event → Loading → Loading
step (makes number pictures) l = make number pictures l
step answers_empty l = on_answer true l
step answers_picture l = on_answer false l
step decoded l = on_jpeg l
step ticks l = tick l

unfoldable pub run : List Event → Loading → Loading
run [] l = l
run (e ∷ es) l = run es (step e l)

-- Events other than the making of another document.
abbrev pub is_answer : Event → Bool
is_answer (makes number pictures) = false
is_answer answers_empty = true
is_answer answers_picture = true
is_answer decoded = true
is_answer ticks = true

-- The counter counts what is on its way, and nothing is shown before that is nothing.
abbrev IsCounted : Loading → Type 0
IsCounted l =
    (l.passpics_to_load ≡ pos (l.asked + l.decoding))
    × ((l.shown ≡ []) ⊎ ((l.asked ≡ 0) × (l.decoding ≡ 0)))

nothing_left : (a b : ℕ) → is_zero (pos (a + b)) ≡ true → (a ≡ 0) × (b ≡ 0)
nothing_left a b h = ground arith

counted_down : (z : ℤ) (n : ℕ) → z ≡ pos (suc n) → z -ℤ pos 1 ≡ pos n
counted_down z n e = rw e (omega int_laws)

take_answer-IsCounted :
    (n : ℕ) (empty : Bool) (l : Loading)
    → l.asked ≡ n
    → IsCounted l
    → IsCounted (take_answer n empty l)
take_answer-IsCounted zero empty l e h = h
take_answer-IsCounted (suc n) true l e (c, s) = (
  counted_down l.passpics_to_load (n + l.decoding) (c ∙ ap pos (omega (arith, e))),
  elim s [ inl none_shown ↦ inl none_shown | inr (a, d) ↦ absurd (omega (arith, a, e)) ],
)
take_answer-IsCounted (suc n) false l e (c, s) = (
  c ∙ ap pos (omega (arith, e)),
  elim s [ inl none_shown ↦ inl none_shown | inr (a, d) ↦ absurd (omega (arith, a, e)) ],
)

on_answer-IsCounted : (empty : Bool) (l : Loading) → IsCounted l → IsCounted (on_answer empty l)
unfolding on_answer
on_answer-IsCounted empty l h = take_answer-IsCounted l.asked empty l refl h

take_jpeg-IsCounted :
    (n : ℕ) (l : Loading) → l.decoding ≡ n → IsCounted l → IsCounted (take_jpeg n l)
take_jpeg-IsCounted zero l e h = h
take_jpeg-IsCounted (suc n) l e (c, s) = (
  counted_down l.passpics_to_load (l.asked + n) (c ∙ ap pos (omega (arith, e))),
  elim s [ inl none_shown ↦ inl none_shown | inr (a, d) ↦ absurd (omega (arith, d, e)) ],
)

on_jpeg-IsCounted : (l : Loading) → IsCounted l → IsCounted (on_jpeg l)
unfolding on_jpeg
on_jpeg-IsCounted l h = take_jpeg-IsCounted l.decoding l refl h

tick-IsCounted : (l : Loading) → IsCounted l → IsCounted (tick l)
unfolding tick
tick-IsCounted l (c, s) = ground (arith, nothing_left l.asked l.decoding)

run-IsCounted :
    (es : List Event) (l : Loading)
    → All (λ (e : Event). is_answer e ≡ true) es
    → IsCounted l
    → IsCounted (run es l)
unfolding run step
run-IsCounted [] l a h = h
run-IsCounted (makes number pictures ∷ es) l (a, as') h = cc
run-IsCounted (answers_empty ∷ es) l (a, as') h =
    run-IsCounted es (on_answer true l) as' (on_answer-IsCounted true l h)
run-IsCounted (answers_picture ∷ es) l (a, as') h =
    run-IsCounted es (on_answer false l) as' (on_answer-IsCounted false l h)
run-IsCounted (decoded ∷ es) l (a, as') h = run-IsCounted es (on_jpeg l) as' (on_jpeg-IsCounted l h)
run-IsCounted (ticks ∷ es) l (a, as') h = run-IsCounted es (tick l) as' (tick-IsCounted l h)

-- After one document is made, and as long as no second one is made: in whatever order its pictures
-- are answered and decoded, the document is not shown while a picture is on its way.
pub shown_when_complete :
    (number pictures : ℕ) (es : List Event)
    → All (λ (e : Event). is_answer e ≡ true) es
    → let l = run (makes number pictures ∷ es) opened in
      (l.shown ≡ []) ⊎ ((l.asked ≡ 0) × (l.decoding ≡ 0))
unfolding run step make
shown_when_complete number pictures es answers =
    (run-IsCounted es (make number pictures opened) answers (ap pos (omega arith), inl refl)).1
