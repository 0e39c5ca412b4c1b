-- ===== src/Db/Index.antt =====
-- server/api/db/students.js: the unique index, and the operations on the students.
use schulealsstaat.Base.{
  ℕ, suc, ◌<◌, ◌≡◌, String, Bool, true, false, Option, List, [], ◌∷◌, ◌++◌, arith, All, All-append,
  All-map, All-and, All-keep, str_eq_iff, keep, ◌==◌, if_cases,
}
use schulealsstaat.Types.{Student, Appear}
use schulealsstaat.Server.{Server, Db, command_silent}
use schulealsstaat.Db.Students.{
  has_qrid, qrid_free, others, replace, push_appear, add, save, remove, add_appear,
}

-- Two students with different QR-IDs and different ids.
abbrev pub Apart : Student → Student → Type 0
Apart x y = (has_qrid x.qrid y ≡ false) × ((y.id == x.id) ≡ false)

abbrev pub Distinct : List Student → Type 0
Distinct [] = Unit
Distinct (x ∷ xs) = All (Apart x) xs × Distinct xs

-- Every id was given before the next one.
abbrev pub Given : ℕ → List Student → Type 0
Given n xs = All (λ (x : Student). x.id < n) xs

pub record IsIndexed (db : Db) : Type 0 where
  pub distinct : Distinct db.students
  pub given : Given db.next_id db.students

free→All :
    (q : String) (xs : List Student)
    → qrid_free q xs ≡ true
    → All (λ (y : Student). has_qrid q y ≡ false) xs
free→All q [] h = tt
free→All q (x ∷ xs) h =
    let (h0, hs) : (has_qrid q x ≡ false) × (qrid_free q xs ≡ true) =
      (ground arith, ground arith) in
    (h0, free→All q xs hs)

Distinct-append :
    (xs : List Student) (st : Student)
    → Distinct xs
    → All (λ (x : Student). Apart x st) xs
    → Distinct (xs ++ st ∷ [])
Distinct-append [] st d h = (tt, tt)
Distinct-append (x ∷ xs) st (a, d) (h, hs) =
    (All-append (Apart x) xs (st ∷ []) a (h, tt), Distinct-append xs st d hs)

new-Apart :
    (n : ℕ) (st : Student) (x : Student)
    → (has_qrid st.qrid x ≡ false)
    → x.id < n
    → Apart x (record st { id = n })
new-Apart n st x h l =
    (ground (arith, str_eq_iff x.qrid st.qrid, str_eq_iff st.qrid x.qrid), ground arith)

-- What the index admits for a student that is saved.
abbrev Admits : Student → Student → Type 0
Admits new y = (y.id == new.id) ≡ false → has_qrid new.qrid y ≡ false

others→Admits :
    (new : Student) (xs : List Student)
    → qrid_free new.qrid (others new.id xs) ≡ true
    → All (Admits new) xs
others→Admits new [] h = tt
others→Admits new (x ∷ xs) h =
    let hs : qrid_free new.qrid (others new.id xs) ≡ true = ground arith in
    (λ n. ground arith, others→Admits new xs hs)

All-replace :
    (P : Student → Type 0) (new : Student) (xs : List Student)
    → P new
    → All P xs
    → All P (replace new xs)
All-replace P new [] h hs = tt
All-replace P new (x ∷ xs) h (g, gs) =
    if_cases (All P) (x.id == new.id) (λ _. (h, gs)) (λ _. (g, All-replace P new xs h gs))

replaced-Apart :
    (x new y : Student) → (x.id == new.id) ≡ true → Apart x y → Admits new y → Apart new y
replaced-Apart x new y e (h, i) a = let n : (y.id == new.id) ≡ false = ground arith in (a n, n)

Distinct-replace :
    (new : Student) (xs : List Student)
    → Distinct xs
    → All (Admits new) xs
    → Distinct (replace new xs)
Distinct-replace new [] d h = tt
Distinct-replace new (x ∷ xs) (a, d) (h, hs) =
    if_cases Distinct (x.id == new.id)
      (λ e. (
        All-and (Apart x) (Admits new) (Apart new) (λ y p q. replaced-Apart x new y e p q) xs a hs,
        d,
      ))
      (λ e. (
        All-replace (Apart x) new xs
            (
              ground (arith, h, str_eq_iff x.qrid new.qrid, str_eq_iff new.qrid x.qrid),
              ground arith,
            )
            a,
        Distinct-replace new xs d hs,
      ))

Distinct-keep : (test : Student → Bool) (xs : List Student) → Distinct xs → Distinct (keep test xs)
Distinct-keep test [] h = tt
Distinct-keep test (x ∷ xs) (h, hs) =
    if_cases Distinct (test x) (λ _. (All-keep (Apart x) test xs h, Distinct-keep test xs hs))
      (λ _. Distinct-keep test xs hs)

All-push :
    (P : Student → Type 0)
    → ((x : Student) (log : List Appear) → P x → P (record x { appear = log }))
    → (q : String) (spec : Appear) (xs : List Student) → All P xs
    → All P (push_appear q spec xs)
All-push P f q spec [] h = tt
All-push P f q spec (x ∷ xs) (h, hs) =
    if_cases (All P) (has_qrid q x) (λ _. (f x (x.appear ++ spec ∷ []) h, hs))
      (λ _. (h, All-push P f q spec xs hs))

Distinct-push :
    (q : String) (spec : Appear) (xs : List Student)
    → Distinct xs
    → Distinct (push_appear q spec xs)
Distinct-push q spec [] d = tt
Distinct-push q spec (x ∷ xs) (a, d) =
    if_cases Distinct (has_qrid q x) (λ _. (a, d))
      (λ _. (All-push (Apart x) (λ y log p. p) q spec xs a, Distinct-push q spec xs d))

Given-replace : (n : ℕ) (new : Student) (xs : List Student) → Given n xs → Given n (replace new xs)
Given-replace n new [] h = tt
Given-replace n new (x ∷ xs) (h, hs) =
    if_cases (Given n) (x.id == new.id) (λ e. (ground arith, hs))
      (λ _. (h, Given-replace n new xs hs))

added :
    (info : Student) (s : Server)
    → qrid_free info.qrid s.db.students ≡ true
    → IsIndexed s.db
    → IsIndexed (record s.db {
      students = s.db.students ++ record info { id = s.db.next_id } ∷ [];
      next_id = suc s.db.next_id;
    })
added info s f h =
    let n = s.db.next_id in
    let apart =
      All-and (λ (x : Student). has_qrid info.qrid x ≡ false) (λ (x : Student). x.id < n)
        (λ (x : Student). Apart x (record info { id = n })) (new-Apart n info) s.db.students
        (free→All info.qrid s.db.students f) h.given in
    record {
      distinct = Distinct-append s.db.students (record info { id = n }) h.distinct apart;
      given =
          All-append (λ (x : Student). x.id < suc n) s.db.students _
            (All-map (λ (x : Student). x.id < n) (λ (x : Student). x.id < suc n)
              (λ x l. omega (arith, l)) s.db.students h.given)
            (omega arith, tt);
    }

-- The operations of the module that change the collection.
pub data Change : Type 0 where
  adds : Student → ℕ → Change
  appears : String → Appear → ℕ → Change
  saves : Student → Change
  removes : Student → Change

unfoldable pub change : Change → Server → Server
change (adds info rid) s = (add info rid s).1
change (appears q spec rid) s = (add_appear q spec rid s).1
change (saves st) s = (save st s).1
change (removes st) s = (remove st s).1

-- Whatever is added, checked in, saved or removed, with the database connected or not, no two
-- students have the same QR-ID or id, and every id was given before the next one.
pub change-IsIndexed : (c : Change) (s : Server) → IsIndexed s.db → IsIndexed (change c s).db
unfolding change add add_appear save remove command_silent
change-IsIndexed (adds info rid) s h =
    if_cases (λ (r : Option Student × Server). IsIndexed r.1.db) s.db.connected
      (λ _.
        if_cases (λ (r : Option Student × Server). IsIndexed r.1.db)
          (qrid_free info.qrid s.db.students) (λ f. added info s f h) (λ _. h))
      (λ _. h)
change-IsIndexed (appears q spec rid) s h =
    if_cases (λ (r : Option Bool × Server). IsIndexed r.1.db) s.db.connected
      (λ _. record {
        distinct = Distinct-push q spec s.db.students h.distinct;
        given =
            All-push (λ (x : Student). x.id < s.db.next_id) (λ y log p. p) q spec s.db.students
              h.given;
      })
      (λ _. h)
change-IsIndexed (saves st) s h =
    if_cases (λ (r : Option (Unit {0}) × Server). IsIndexed r.1.db) s.db.connected
      (λ _.
        if_cases IsIndexed (qrid_free st.qrid (others st.id s.db.students))
          (λ f. record {
            distinct =
                Distinct-replace st s.db.students h.distinct (others→Admits st s.db.students f);
            given = Given-replace s.db.next_id st s.db.students h.given;
          })
          (λ _. h))
      (λ _. h)
change-IsIndexed (removes st) s h =
    if_cases (λ (r : Option (Unit {0}) × Server). IsIndexed r.1.db) s.db.connected
      (λ _. record {
        distinct = Distinct-keep _ s.db.students h.distinct;
        given = All-keep (λ (x : Student). x.id < s.db.next_id) _ s.db.students h.given;
      })
      (λ _. h)
