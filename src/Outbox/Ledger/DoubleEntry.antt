-- ===== src/Outbox/Ledger/DoubleEntry.antt =====
-- The journal lines of ledger.py come in mirrored pairs, so that the debits and the credits agree.
use event_driven_trading_led.Base.{
  String, ◌≡◌, refl, ap, sym, ◌∙◌, List, [], ◌∷◌, ◌++◌, arith, map, append_assoc,
}
use event_driven_trading_led.Base.Exec.{ok}
use event_driven_trading_led.Base.Float.{Float, SumSkipsZero, SubSelf}
use event_driven_trading_led.Outbox.Ledger.{
  TradeRequest, JournalLine, Ledger, lines_of, total_debit, total_credit, assert_double_entry,
}

module _ {F : Type 0} ⦃fl : Float F⦄ where
  -- the lines are pairs of one journal entry: a debit, and the credit that mirrors it
  abbrev pub IsMirrored : List (JournalLine F) → Type 0
  IsMirrored [] = Unit
  IsMirrored (x ∷ []) = ⊥
  IsMirrored (x ∷ y ∷ r) =
      (x.je_id ≡ y.je_id)
      × (x.debit ≡ y.credit)
      × (x.credit ≡ fl.decimal 0 0)
      × (y.debit ≡ fl.decimal 0 0)
      × IsMirrored r

  pub IsMirrored-append :
      (xs ys : List (JournalLine F)) → IsMirrored xs → IsMirrored ys → IsMirrored (xs ++ ys)
  IsMirrored-append [] ys hx hy = hy
  IsMirrored-append (x ∷ []) ys hx hy = absurd hx
  IsMirrored-append (x ∷ y ∷ xs) ys hx hy =
      (hx.0, hx.1, hx.2, hx.3, IsMirrored-append xs ys hx.4 hy)

  pub lines_of-IsMirrored :
      (je : String) (req : TradeRequest F) (cash_delta : F)
      → IsMirrored (lines_of je req cash_delta)
  unfolding lines_of
  lines_of-IsMirrored je req cash_delta = ground arith

module _ {F : Type 0} ⦃fl : Float F⦄ (law : SumSkipsZero fl) where
  -- with any sum in front, so that the induction may move a pair there
  sums_agree :
      (front : List F) (lines : List (JournalLine F))
      → IsMirrored lines
      → fl.sql_sum (front ++ map (λ x. x.debit) lines)
        ≡ fl.sql_sum (front ++ map (λ x. x.credit) lines)
  sums_agree front [] h = refl
  sums_agree front (x ∷ []) h = absurd h
  sums_agree front (x ∷ y ∷ lines) (_, amount, no_credit, no_debit, h) =
      let ds = map (λ (l : JournalLine F). l.debit) lines in
      let cs = map (λ (l : JournalLine F). l.credit) lines in
      let zero = fl.decimal 0 0 in
      rw (amount, no_credit, no_debit)
        (ap fl.sql_sum (sym (append_assoc front (y.credit ∷ []) (zero ∷ ds)))
          ∙ law.sum_zero (front ++ y.credit ∷ []) ds
          ∙ sums_agree (front ++ y.credit ∷ []) lines h
          ∙ ap fl.sql_sum (append_assoc front (y.credit ∷ []) cs)
          ∙ sym (law.sum_zero front (y.credit ∷ cs)))

  pub totals_agree : (l : Ledger F) → IsMirrored l.journal_lines → total_debit l ≡ total_credit l
  unfolding total_debit total_credit
  totals_agree l h = sums_agree [] l.journal_lines h

  -- Over mirrored lines `assert_double_entry` passes and returns equal totals, where a zero changes no
  -- sum and a number less itself is within the tolerance.
  pub assert_double_entry_passes :
      SubSelf fl
      → (l : Ledger F) → IsMirrored l.journal_lines
      → assert_double_entry l ≡ (ok (total_debit l, total_debit l), l)
  unfolding assert_double_entry
  assert_double_entry_passes self l h =
      ground (arith, totals_agree l h, self.sub_self (total_debit l))
