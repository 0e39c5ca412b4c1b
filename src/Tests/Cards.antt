-- ===== src/Tests/Cards.antt =====
-- The identity cards and the page of a terminal at small inputs.
use schulealsstaat.Base.{
  ◌≡◌, ◌*◌, ◌+◌, ◌≤◌, ◌<◌, String, refl, false, some, List, All, [], ◌∷◌, ◌++◌, arith, ◌⊎◌,
}
use schulealsstaat.Base.Int.{ℤ, pos}
use schulealsstaat.Types.{Student, Answer}
use schulealsstaat.IdCards.{Texts, render_students, returned, student_readable, citizen_readable}
use schulealsstaat.IdCards.Places.{IsReadable, Placed, each_student_once}
use schulealsstaat.IdCards.Geometry.{IsOnPage, NoOverlap, cards_fit}
use schulealsstaat.IdCards.Pictures as Pictures
use schulealsstaat.Terminal.{student_identify}
use schulealsstaat.Terminal.Payment.{
  Event, Form, Page, as_sender, as_recipient, identifies, changes, initial, identify, confirm,
  change, payment_of, step, run, times_out, n_decimals,
}
use schulealsstaat.Terminal.Payment.Persons.{pays_the_shown}
use schulealsstaat.Terminal.Payment.Twice.{pays_twice}
use schulealsstaat.Tests.World.{anna, ben, hgc}

abbrev texts : Texts
texts = record { lower = λ t. t; upper = λ t. t; date_readable = λ t. t; less = λ a b. false }

abbrev carla : Student
carla = record anna { firstname = some "Carla"; lastname = some "Meyer" }

abbrev guest : Student
guest = record anna { type = "visitor" }

abbrev pupils : List Student
pupils = carla ∷ guest ∷ carla ∷ guest ∷ []

pupils-IsReadable : All (IsReadable texts) pupils
unfolding student_readable citizen_readable
pupils-IsReadable = ((_, refl), ((_, refl), ((_, refl), ((_, refl), tt))))

each_student_once_example :
    let p = render_students texts 5 pupils in
    Placed 0 p.cards pupils
    × (p.end ≡ returned)
    × (p.added_pages * 15 ≤ 4)
    × (4 < (p.added_pages + 1) * 15)
each_student_once_example = each_student_once texts 5 pupils pupils-IsReadable (omega arith)

cards_fit_example :
    All IsOnPage (render_students texts 5 pupils).cards
    × NoOverlap (render_students texts 5 pupils).cards
cards_fit_example = cards_fit texts 5 pupils pupils-IsReadable (omega arith)

-- A picture that is decoded, with ticks of the timer between.
abbrev loads : List Pictures.Event
loads =
    Pictures.ticks ∷ Pictures.answers_picture ∷ Pictures.ticks ∷ Pictures.decoded ∷ Pictures.ticks
    ∷ []

shown_when_complete_example :
    let l = Pictures.run (Pictures.makes 0 1 ∷ loads) Pictures.opened in
    (l.shown ≡ []) ⊎ ((l.asked ≡ 0) × (l.decoding ≡ 0))
shown_when_complete_example =
    Pictures.shown_when_complete 0 1 loads (refl, (refl, (refl, (refl, (refl, tt)))))

-- The amounts of these inputs are printed without a point.
abbrev whole : ℤ → List String
whole a = "3" ∷ []

abbrev chosen_both : List Event
chosen_both =
    identifies as_sender false (Answer.student anna)
    ∷ identifies as_recipient false (Answer.student carla)
    ∷ changes as_recipient
    ∷ identifies as_recipient false (Answer.student ben)
    ∷ []

abbrev inputs : Form
inputs = record { amount = some (pos (3 * hgc)); comment = "Brot"; password = "pw" }

pays_the_shown_example :
    (confirm whole 2 inputs (run whole 2 chosen_both initial)).sent
    ≡ (run whole 2 chosen_both initial).sent ++ payment_of "anna" "ben" (pos (3 * hgc)) inputs ∷ []
unfolding run step identify change student_identify n_decimals
pays_the_shown_example =
    pays_the_shown whole 2 chosen_both inputs anna ben (pos (3 * hgc))
      (refl, (refl, (tt, (refl, tt)))) refl refl refl refl refl refl refl

abbrev both : Page
both = record initial {
  sender = record { current = some "anna"; complete = some anna };
  recipient = record { current = some "ben"; complete = some ben };
}

pays_twice_example :
    (confirm whole 2 inputs (confirm whole 2 inputs both) ≡ confirm whole 2 inputs both)
    × ((confirm whole 2 inputs (times_out 0 (confirm whole 2 inputs both))).sent
        ≡ payment_of "anna" "ben" (pos (3 * hgc)) inputs
          ∷ payment_of "anna" "ben" (pos (3 * hgc)) inputs
          ∷ [])
unfolding n_decimals
pays_twice_example =
    pays_twice whole 2 both inputs "anna" "ben" (pos (3 * hgc)) refl refl refl refl refl
