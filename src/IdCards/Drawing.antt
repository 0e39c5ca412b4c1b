-- ===== src/IdCards/Drawing.antt =====
-- The pictures of a card: `render_student_card` of client/adminpanel/site/idcards/scripts.js, up to
-- the texts, whose width is the font's.
use schulealsstaat.Base.{
  ℕ, ◌+◌, ◌≤◌, String, Option, none, some, List, All, [], ◌∷◌, ◌++◌, arith, str_eq, if◌then◌else◌,
  if_cases, All-append,
}
use schulealsstaat.Types.{Student}
use schulealsstaat.IdCards.{Slot, xpos, ypos, card_w, card_h}

pub data Source : Type 0 where
  qrcode : String → Source
  -- a picture of the webcam server, and the ones that the page has loaded
  passpic : String → Source
  passpic_visitors passpic_replacement passpic_legalentity saeulogo wunderland : Source

pub record Picture : Type 0 where
  pub source : Source
  pub x : ℕ
  pub y : ℕ
  pub w : ℕ
  pub h : ℕ

-- The offsets and sizes of the pictures.
module _ (s : Slot) where
  unfoldable pub qrcode_at : Source → Picture
  qrcode_at source = record {
    source = source;
    x = xpos s + 4000;
    y = ypos s + 7000;
    w = 41000;
    h = 41000;
  }

  unfoldable pub passpic_at : Source → Picture
  passpic_at source = record {
    source = source;
    x = xpos s + 43000;
    y = ypos s + 7000;
    w = 23000;
    h = 17250;
  }

  unfoldable pub logo_at : Source → Picture
  logo_at source = record {
    source = source;
    x = xpos s + 43500;
    y = ypos s + 26000;
    w = 6000;
    h = 6000;
  }

  unfoldable pub wunderland_at : Source → Picture
  wunderland_at source = record {
    source = source;
    x = xpos s + 43000;
    y = ypos s + 35000;
    w = 22960;
    h = 8568;
  }

  -- The picture that the webcam server answers is drawn when it is there.
  unfoldable pub passpics : Student → Option String → List Picture
  passpics st (some picname) = passpic_at (passpic picname) ∷ []
  passpics st none =
      if str_eq st.type "visitor"
      then passpic_at passpic_visitors ∷ []
      else if str_eq st.type "replacement"
      then passpic_at passpic_replacement ∷ []
      else []

  unfoldable pub legalentity_pictures : Student → List Picture
  legalentity_pictures st =
      if str_eq st.type "legalentity" then passpic_at passpic_legalentity ∷ [] else []

  -- Where no name is missing.
  unfoldable pub card_pictures : Student → List Picture
  card_pictures st =
      qrcode_at (qrcode st.qrid) ∷ (passpics st st.picname ++ legalentity_pictures st)
      ++ logo_at saeulogo ∷ wunderland_at wunderland ∷ []

-- A picture lies on the card.
abbrev pub IsInside : Slot → Picture → Type 0
IsInside s p =
    (xpos s ≤ p.x) × (p.x + p.w ≤ xpos s + card_w) × (ypos s ≤ p.y) × (p.y + p.h ≤ ypos s + card_h)

module _ (s : Slot) where
  passpic_at-IsInside : (source : Source) → IsInside s (passpic_at s source)
  unfolding passpic_at
  passpic_at-IsInside source = (omega arith, omega arith, omega arith, omega arith)

  passpics-IsInside : (st : Student) (o : Option String) → All (IsInside s) (passpics s st o)
  unfolding passpics
  passpics-IsInside st (some picname) = (passpic_at-IsInside (passpic picname), tt)
  passpics-IsInside st none =
      if_cases (All (IsInside s)) (str_eq st.type "visitor")
        (λ _. (passpic_at-IsInside passpic_visitors, tt))
        (λ _.
          if_cases (All (IsInside s)) (str_eq st.type "replacement")
            (λ _. (passpic_at-IsInside passpic_replacement, tt)) (λ _. tt))

  legalentity_pictures-IsInside : (st : Student) → All (IsInside s) (legalentity_pictures s st)
  unfolding legalentity_pictures
  legalentity_pictures-IsInside st =
      if_cases (All (IsInside s)) (str_eq st.type "legalentity")
        (λ _. (passpic_at-IsInside passpic_legalentity, tt)) (λ _. tt)

  pub card_pictures-IsInside : (st : Student) → All (IsInside s) (card_pictures s st)
  unfolding card_pictures qrcode_at logo_at wunderland_at
  card_pictures-IsInside st = (
    (omega arith, omega arith, omega arith, omega arith),
    All-append (IsInside s) (passpics s st st.picname ++ legalentity_pictures s st) _
        (All-append (IsInside s) (passpics s st st.picname) (legalentity_pictures s st)
          (passpics-IsInside st st.picname) (legalentity_pictures-IsInside st))
        (
          (omega arith, omega arith, omega arith, omega arith),
          ((omega arith, omega arith, omega arith, omega arith), tt),
        ),
  )
