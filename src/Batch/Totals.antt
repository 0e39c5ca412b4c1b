-- ===== src/Batch/Totals.antt =====
-- The statistics below the lists, over any numbers: the source's are floating-point.
use mathlib.Core.Path.{ap₂}
use schulealsstaat.Base.{if_cases, ℕ, zero, suc, ◌≡◌, sym, ap, ◌∙◌, List, [], ◌∷◌, if◌then◌else◌}
use schulealsstaat.Base.Int.{ℤ, pos}
use schulealsstaat.Batch.Amounts.{Input, missing, not_a_number, value, present, Amounts}

pub record Numbers (N : Type 0) : Type 0 where
  pub of : ℤ → N
  pub nan : N
  pub add : N → N → N
  pub sub : N → N → N
  pub mul : N → N → N
  pub div : N → N → N

pub record Totals (N : Type 0) : Type 0 where
  pub total_sent : N
  pub total_received : N
  pub total_tax : N
  pub total_number : ℕ

module _ {N : Type 0} (n : Numbers N) where
  -- `gross2tax`, which does not round here
  unfoldable pub gross2tax : N → N → N
  gross2tax gross tax_percent =
      let tax = n.div tax_percent (n.of (pos 100)) in
      n.div (n.mul tax gross) (n.add (n.of (pos 1)) tax)

  unfoldable pub net2tax : N → N → N
  net2tax net tax_percent = n.mul (n.div tax_percent (n.of (pos 100))) net

  abbrev pub number_of : Input → N
  number_of missing = n.nan
  number_of not_a_number = n.nan
  number_of (value a) = n.of a

  -- `amount_sent_readable` and `amount_received_readable`, before they are printed. Without any
  -- amount they return the text "error", which is `nan` here.
  unfoldable pub sent_shown : N → Amounts → N
  sent_shown tax_percent a =
      if present a.amount
      then number_of a.amount
      else if present a.amount_sent
      then number_of a.amount_sent
      else if present a.amount_received
      then n.add (number_of a.amount_received) (net2tax (number_of a.amount_received) tax_percent)
      else n.nan

  unfoldable pub received_shown : N → Amounts → N
  received_shown tax_percent a =
      if present a.amount
      then number_of a.amount
      else if present a.amount_received
      then number_of a.amount_received
      else if present a.amount_sent
      then n.sub (number_of a.amount_sent) (gross2tax (number_of a.amount_sent) tax_percent)
      else n.nan

  -- One round of the loop over the transactions, with the tax of the row.
  unfoldable pub add_row : N → Amounts → Totals N → Totals N
  add_row tax_percent a t =
      let gross_tax = gross2tax (number_of a.amount_sent) tax_percent in
      let net_tax = net2tax (number_of a.amount_received) tax_percent in
      let counted = record t { total_number = suc t.total_number } in
      if present a.amount
      then record counted {
        total_sent = n.add t.total_sent (number_of a.amount);
        total_received = n.add t.total_received (number_of a.amount);
      }
      else if present a.amount_sent
      then record counted {
        total_sent = n.add t.total_sent (number_of a.amount_sent);
        total_tax = n.add t.total_tax gross_tax;
        total_received = n.add t.total_received (n.sub (number_of a.amount_sent) gross_tax);
      }
      else if present a.amount_received
      then record counted {
        total_received = n.add t.total_received (number_of a.amount_received);
        total_tax = n.add t.total_tax net_tax;
        total_sent = n.add t.total_sent (n.add (number_of a.amount_received) net_tax);
      }
      else counted

  unfoldable pub add_rows : List (N × Amounts) → Totals N → Totals N
  add_rows [] t = t
  add_rows ((tax_percent, a) ∷ rows) t = add_rows rows (add_row tax_percent a t)

  unfoldable pub totals : List (N × Amounts) → Totals N
  totals rows = add_rows rows (record {
    total_sent = n.of (pos 0);
    total_received = n.of (pos 0);
    total_tax = n.of (pos 0);
    total_number = zero;
  })

  -- The averages divide by the number of rows, if there are any.
  unfoldable pub average : (ℕ → N) → N → ℕ → N
  average of_count total zero = n.of (pos 0)
  average of_count total (suc k) = n.div total (of_count (suc k))

  module _ (add_comm : (a b : N) → n.add a b ≡ n.add b a) where
    module _ (add_assoc : (a b c : N) → n.add (n.add a b) c ≡ n.add a (n.add b c)) where
      module _ (sub_add : (a b : N) → n.add (n.sub a b) b ≡ a) where
        swap : (r t a : N) → n.add (n.add r t) a ≡ n.add (n.add r a) t
        swap r t a = add_assoc r t a ∙ ap (n.add r) (add_comm t a) ∙ sym (add_assoc r a t)

        interchange : (r t a b : N) → n.add (n.add r t) (n.add a b) ≡ n.add (n.add r a) (n.add t b)
        interchange r t a b =
            sym (add_assoc (n.add r t) a b)
            ∙ ap (λ s. n.add s b) (swap r t a)
            ∙ add_assoc (n.add r a) t b

        abbrev Balanced : Totals N → Type 0
        Balanced t = t.total_sent ≡ n.add t.total_received t.total_tax

        add_row-Balanced :
            (tax_percent : N) (a : Amounts) (t : Totals N)
            → Balanced t
            → Balanced (add_row tax_percent a t)
        unfolding add_row
        add_row-Balanced tax_percent a t h =
            if_cases Balanced (present a.amount)
              (λ _.
                ap (λ s. n.add s (number_of a.amount)) h
                ∙ swap t.total_received t.total_tax (number_of a.amount))
              (λ _.
                if_cases Balanced (present a.amount_sent)
                  (λ _.
                    ap₂ n.add h (
                      sym (
                        sub_add (number_of a.amount_sent)
                          (gross2tax (number_of a.amount_sent) tax_percent)))
                    ∙ interchange t.total_received t.total_tax _ _)
                  (λ _.
                    if_cases Balanced (present a.amount_received)
                      (λ _.
                        ap
                          (λ s. n.add s (
                            n.add (number_of a.amount_received)
                              (net2tax (number_of a.amount_received) tax_percent)))
                          h
                        ∙ interchange t.total_received t.total_tax _ _)
                      (λ _. h)))

        add_rows-Balanced :
            (rows : List (N × Amounts)) (t : Totals N) → Balanced t → Balanced (add_rows rows t)
        unfolding add_rows
        add_rows-Balanced [] t h = h
        add_rows-Balanced ((tax_percent, a) ∷ rows) t h =
            add_rows-Balanced rows (add_row tax_percent a t) (add_row-Balanced tax_percent a t h)

        -- In numbers whose addition is associative and commutative, and undoes subtraction, what the
        -- statistics call sent is what they call received and the tax, whatever the rows are.
        totals_balance :
            (rows : List (N × Amounts))
            → n.add (n.of (pos 0)) (n.of (pos 0)) ≡ n.of (pos 0)
            → (totals rows).total_sent ≡ n.add (totals rows).total_received (totals rows).total_tax
        unfolding totals
        totals_balance rows zero_zero = add_rows-Balanced rows _ (sym zero_zero)
