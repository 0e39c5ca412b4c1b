-- ===== src/Batch/Runs.antt =====
-- The lists' button `#start`: what it sends, and what it sends again.
use schulealsstaat.Base.{
  ℕ, zero, suc, ◌+◌, ◌≡◌, refl, sym, ap, ◌∙◌, subst, Bool, true, false, Option, none, some, List,
  [], ◌∷◌, ◌++◌, map, arith, All, any, is_some, inl, inr, Bool-cases, ◌==◌, if_cases, if◌then◌else◌,
}
use mathlib.Core.Path.{ap₂}
use mathlib.Core.List.{append-nil}
use schulealsstaat.Types.{Answer}
use schulealsstaat.Batch.{
  Row, Sheet, Prepared, started_row, query_of, queries_from, with_query, start, answer_at,
  with_answer, step, answered,
}

module _ {T Q : Type 0} (prepare : T → Prepared Q) where
  -- The rows after the callbacks of some queries, in the order of their answers.
  unfoldable pub answer_all : List (ℕ × Answer) → Sheet T Q → Sheet T Q
  answer_all [] s = s
  answer_all ((tid, res) ∷ rest) s = answer_all rest (step prepare (answered tid res) s)

  -- Whether the row at an index would be sent.
  abbrev pub due : ℕ → List (Row T) → Bool
  due j [] = false
  due zero (r ∷ rs) = is_some (query_of prepare r)
  due (suc j) (r ∷ rs) = due j rs

  query_of-started : (r : Row T) → query_of prepare (started_row prepare r) ≡ query_of prepare r
  query_of-started r = ground arith

  query_of-answered : (res : Answer) (r : Row T) → query_of prepare (with_answer res r) ≡ none
  query_of-answered res r = ground arith

  not_some : (o : Option Q) → is_some o ≡ false → o ≡ none
  not_some none h = refl
  not_some (some q) h = cc

  queries_from-started :
      (i : ℕ) (rs : List (Row T))
      → queries_from prepare i (map (started_row prepare) rs) ≡ queries_from prepare i rs
  unfolding queries_from
  queries_from-started i [] = refl
  queries_from-started i (r ∷ rs) =
      ap₂ (λ o rest. with_query o i rest) (query_of-started r) (queries_from-started (suc i) rs)

  due-answer_at :
      (j i : ℕ) (res : Answer) (rs : List (Row T))
      → due j (answer_at i res rs) ≡ (if i == j then false else due j rs)
  unfolding answer_at
  due-answer_at j i res [] = ground arith
  due-answer_at zero zero res (r ∷ rs) = rw (query_of-answered res r) refl
  due-answer_at zero (suc i) res (r ∷ rs) = ground arith
  due-answer_at (suc j) zero res (r ∷ rs) = ground arith
  due-answer_at (suc j) (suc i) res (r ∷ rs) = ground (arith, due-answer_at j i res rs)

  due-answer_all :
      (j : ℕ) (rest : List (ℕ × Answer)) (s : Sheet T Q)
      → due j (answer_all rest s).rows
        ≡ (if any (λ (a : ℕ × Answer). a.0 == j) rest then false else due j s.rows)
  unfolding answer_all step
  due-answer_all j [] s = refl
  due-answer_all j ((tid, res) ∷ rest) s =
      let s' = step prepare (answered tid res) s in
      ground (arith, due-answer_all j rest s', due-answer_at j tid res s.rows)

  sent_after : (rest : List (ℕ × Answer)) (s : Sheet T Q) → (answer_all rest s).sent ≡ s.sent
  unfolding answer_all step
  sent_after [] s = refl
  sent_after ((tid, res) ∷ rest) s = sent_after rest (step prepare (answered tid res) s)

  queries-nil :
      (i : ℕ) (rs : List (Row T)) → ((j : ℕ) → due j rs ≡ false) → queries_from prepare i rs ≡ []
  unfolding queries_from
  queries-nil i [] h = refl
  queries-nil i (r ∷ rs) h =
      ap₂ (λ o rest. with_query o i rest) (not_some (query_of prepare r) (h 0))
        (queries-nil (suc i) rs (λ j. h (suc j)))

  queried_head :
      (test : ℕ → Bool) (i : ℕ) (o : Option Q) (rest : List (ℕ × Q))
      → All (λ (q : ℕ × Q). test q.0 ≡ true) (with_query o i rest)
      → is_some o ≡ true
      → test i ≡ true
  queried_head test i none rest h d = cc
  queried_head test i (some q) rest h d = h.0

  queried_tail :
      (test : ℕ → Bool) (i : ℕ) (o : Option Q) (rest : List (ℕ × Q))
      → All (λ (q : ℕ × Q). test q.0 ≡ true) (with_query o i rest)
      → All (λ (q : ℕ × Q). test q.0 ≡ true) rest
  queried_tail test i none rest h = h
  queried_tail test i (some q) rest h = h.1

  due→queried :
      (test : ℕ → Bool) (i j : ℕ) (rs : List (Row T))
      → All (λ (q : ℕ × Q). test q.0 ≡ true) (queries_from prepare i rs)
      → due j rs ≡ true
      → test (i + j) ≡ true
  unfolding queries_from
  due→queried test i j [] h d = cc
  due→queried test i zero (r ∷ rs) h d =
      subst (λ k. test k ≡ true) (omega arith)
        (queried_head test i (query_of prepare r) (queries_from prepare (suc i) rs) h d)
  due→queried test i (suc j) (r ∷ rs) h d =
      subst (λ k. test k ≡ true) (omega arith)
        (due→queried test (suc i) j rs
          (queried_tail test i (query_of prepare r) (queries_from prepare (suc i) rs) h) d)

  none_due :
      (s : Sheet T Q) (rest : List (ℕ × Answer))
      → All
          (λ (q : ℕ × Q). any (λ (a : ℕ × Answer). a.0 == q.0) rest ≡ true)
          (queries_from prepare 0 s.rows)
      → (j : ℕ) → due j (answer_all rest (start prepare s)).rows ≡ false
  unfolding start
  none_due s rest h j =
      let asked : ℕ → Bool = λ k. any (λ (a : ℕ × Answer). a.0 == k) rest in
      let rows' : List (Row T) = map (started_row prepare) s.rows in
      let h' =
        subst (All (λ (q : ℕ × Q). asked q.0 ≡ true)) (sym (queries_from-started 0 s.rows)) h in
      due-answer_all j rest (start prepare s)
      ∙ if_cases (λ (b : Bool). b ≡ false) (asked j) (λ _. refl)
          (λ unasked. elim (Bool-cases (due j rows')) [
            | inl d ↦
                let from_zero : 0 + j ≡ j = omega arith in
                cc (
                  unasked,
                  subst (λ k. asked k ≡ true) from_zero (due→queried asked 0 j rows' h' d),
                )
            | inr d ↦ d
          ])

  -- Starting again before any answer has come sends every waiting transaction a second time.
  started_twice :
      (s : Sheet T Q)
      → (start prepare (start prepare s)).sent
        ≡ (s.sent ++ queries_from prepare 0 s.rows) ++ queries_from prepare 0 s.rows
  unfolding start
  started_twice s =
      ap (λ qs. (s.sent ++ queries_from prepare 0 s.rows) ++ qs) (queries_from-started 0 s.rows)

  -- Once every query of a start has been answered, by whatever and in whatever order, starting
  -- again with the same certificate, which `prepare` stands for, sends nothing.
  pub settled :
      (s : Sheet T Q) (rest : List (ℕ × Answer))
      → All
          (λ (q : ℕ × Q). any (λ (a : ℕ × Answer). a.0 == q.0) rest ≡ true)
          (queries_from prepare 0 s.rows)
      → (start prepare (answer_all rest (start prepare s))).sent
        ≡ s.sent ++ queries_from prepare 0 s.rows
  unfolding start
  settled s rest h =
      let s1 = start prepare s in
      ap₂ ◌++◌ (sent_after rest s1) (queries-nil 0 (answer_all rest s1).rows (none_due s rest h))
      ∙ append-nil (s.sent ++ queries_from prepare 0 s.rows)
