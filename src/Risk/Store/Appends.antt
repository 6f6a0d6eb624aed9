-- ===== src/Risk/Store/Appends.antt =====
-- `append_price` and `append_pv` of store.py, and the window after a whole series of appends.
use event_driven_trading_led.Base.{
  ℕ, zero, suc, ◌+◌, ◌≤◌, String, ◌≡◌, refl, ap, sym, ◌∙◌, true, false, Option, none, List, [], ◌∷◌,
  ◌++◌, arith, eq_iff, ◌==◌, map, reverse, take, take_last, select, length, All, map-append,
  reverse-cons, select-append, length-take_last-le, append-nil, append_assoc, reverse-append,
  reverse-reverse,
}
use event_driven_trading_led.Base.Int.{ℤ, pos_part}
use event_driven_trading_led.Base.Exec.{ok, err, integrity_error}
use event_driven_trading_led.Base.Float.{Float}
use event_driven_trading_led.Risk.Store.{
  HistoryRow, History, RiskStore, rows_of, insert_row, evict, window, append_pv, pv_window,
  returns_from, returns_of, pv_returns,
}
use event_driven_trading_led.Risk.Store.Windows.{
  IsOrdered, rows_of-evict, rows_of-evict_other, evict-IsOrdered, insert_row-IsOrdered,
}

map-take {ℓ κ} :
    {A : Type ℓ} {B : Type κ} (f : A → B) (n : ℕ) (xs : List A)
    → map f (take n xs) ≡ take n (map f xs)
map-take f zero xs = refl
map-take f (suc n) [] = refl
map-take f (suc n) (x ∷ xs) = ap (◌∷◌ (f x)) (map-take f n xs)

map-reverse_lem {ℓ κ} :
    {A : Type ℓ} {B : Type κ} (f : A → B) (xs : List A) → map f (reverse xs) ≡ reverse (map f xs)
map-reverse_lem f [] = refl
map-reverse_lem f (x ∷ xs) =
    ap (map f) (reverse-cons x xs)
    ∙ map-append f (reverse xs) (x ∷ [])
    ∙ ap (λ ys. ys ++ f x ∷ []) (map-reverse_lem f xs)
    ∙ sym (reverse-cons (f x) (map f xs))

map-take_last {ℓ κ} :
    {A : Type ℓ} {B : Type κ} (f : A → B) (n : ℕ) (xs : List A)
    → map f (take_last n xs) ≡ take_last n (map f xs)
map-take_last f n xs =
    map-reverse_lem f (take n (reverse xs))
    ∙ ap reverse (map-take f n (reverse xs) ∙ ap (take n) (map-reverse_lem f xs))

module _ {F : Type 0} where
  rows_of-insert_row :
      (key : String) (v : F) (time : Option String) (h : History F)
      → rows_of key (insert_row key v time h)
        ≡ rows_of key h ++ record { id = h.next_id; key = key; value = v; time = time } ∷ []
  unfolding rows_of insert_row select
  rows_of-insert_row key v time h =
      select-append (λ r. r.key == key) h.rows _ ∙ ground (arith, eq_iff key key)

  rows_of-insert_other :
      (key other : String) (v : F) (time : Option String) (h : History F)
      → (other == key) ≡ false
      → rows_of other (insert_row key v time h) ≡ rows_of other h
  unfolding rows_of insert_row select
  rows_of-insert_other key other v time h ne =
      select-append (λ r. r.key == other) h.rows _
      ∙ ground (
        arith,
        eq_iff key other,
        eq_iff other key,
        append-nil (select (λ r. r.key == other) h.rows),
      )

  -- one append to a history table
  abbrev pub appended : String → F → ℕ → Option String → History F → History F
  appended key v keep time h = evict key keep (insert_row key v time h)

  window-appended :
      (key : String) (v : F) (keep : ℕ) (time : Option String) (h : History F)
      → IsOrdered h
      → window key (appended key v keep time h) ≡ take_last keep (window key h ++ v ∷ [])
  unfolding window
  window-appended key v keep time h ordered =
      ap (map (λ r. r.value)) (
        rows_of-evict key keep (insert_row key v time h) (insert_row-IsOrdered key v time h ordered)
        ∙ ap (take_last keep) (rows_of-insert_row key v time h))
      ∙ map-take_last (λ r. r.value) keep (rows_of key h ++ _)
      ∙ ap (take_last keep) (map-append (λ (r : HistoryRow F). r.value) (rows_of key h) _)

  window-appended_other :
      (key other : String) (v : F) (keep : ℕ) (time : Option String) (h : History F)
      → (other == key) ≡ false
      → window other (appended key v keep time h) ≡ window other h
  unfolding window
  window-appended_other key other v keep time h ne = ap (map (λ r. r.value)) (
      rows_of-evict_other key other keep (insert_row key v time h) ne
      ∙ rows_of-insert_other key other v time h ne)

  appended-IsOrdered :
      (key : String) (v : F) (keep : ℕ) (time : Option String) (h : History F)
      → IsOrdered h
      → IsOrdered (appended key v keep time h)
  appended-IsOrdered key v keep time h ordered =
      evict-IsOrdered key keep _ (insert_row-IsOrdered key v time h ordered)

take-take {ℓ} : {A : Type ℓ} (k : ℕ) (zs : List A) → take k (take (suc k) zs) ≡ take k zs
take-take zero zs = refl
take-take (suc k) [] = refl
take-take (suc k) (z ∷ zs) = ap (◌∷◌ z) (take-take k zs)

take-cons {ℓ} :
    {A : Type ℓ} (k : ℕ) (zs : List A) (y : A) → take k (y ∷ take k zs) ≡ take k (y ∷ zs)
take-cons zero zs y = refl
take-cons (suc k) zs y = ap (◌∷◌ y) (take-take k zs)

-- the last `k` of the last `k` and one more are the last `k` of all and one more
take_last-snoc {ℓ} :
    {A : Type ℓ} (k : ℕ) (xs : List A) (y : A)
    → take_last k (take_last k xs ++ y ∷ []) ≡ take_last k (xs ++ y ∷ [])
take_last-snoc k xs y =
    ap (λ z. reverse (take k z))
      (reverse-append (take_last k xs) (y ∷ [])
        ∙ ap (λ z. y ∷ z) (reverse-reverse (take k (reverse xs))))
    ∙ ap reverse (take-cons k (reverse xs) y)
    ∙ ap (λ z. reverse (take k z)) (sym (reverse-append xs (y ∷ [])))

module _ {F : Type 0} ⦃fl : Float F⦄ where
  append_pv-appended :
      (account_id : String) (pv : F) (window_size : ℤ) (time : Option String) (s : RiskStore F)
      → fl.is_nan pv ≡ false
      → append_pv account_id pv window_size time s ≡ (
        ok tt,
        record s {
          pv_history = appended account_id pv (pos_part window_size + 1) time s.pv_history;
        },
      )
  unfolding append_pv
  append_pv-appended account_id pv window_size time s number = rw number

  -- A value that is no NaN is appended: the account's window becomes the last `window_size + 1` of
  -- its old values and the new one, every other account's window stays, and the table stays in order.
  pub append_pv_lem :
      (account_id : String) (pv : F) (window_size : ℤ) (time : Option String) (s : RiskStore F)
      → fl.is_nan pv ≡ false
      → IsOrdered s.pv_history
      → let (r, s') = append_pv account_id pv window_size time s in
        (r ≡ ok tt)
        × (pv_window account_id s'
            ≡ take_last (pos_part window_size + 1) (pv_window account_id s ++ pv ∷ []))
        × ((other : String)
            → (other == account_id) ≡ false
            → pv_window other s' ≡ pv_window other s)
        × IsOrdered s'.pv_history
  unfolding pv_window
  append_pv_lem account_id pv window_size time s number ordered =
      let keep = pos_part window_size + 1 in
      let h = s.pv_history in
      rw (append_pv-appended account_id pv window_size time s number) (
        refl,
        window-appended account_id pv keep time h ordered,
        (λ other ne. window-appended_other account_id other pv keep time h ne),
        appended-IsOrdered account_id pv keep time h ordered,
      )

  -- the store after a series of values for one account
  pub append_pvs : String → ℤ → List F → RiskStore F → RiskStore F
  append_pvs account_id window_size [] s = s
  append_pvs account_id window_size (pv ∷ pvs) s =
      append_pvs account_id window_size pvs (append_pv account_id pv window_size none s).1

  -- Whatever series of values is sampled, none a NaN, the window is the last `window_size + 1` of the
  -- whole history of the account, if it was so before and the table was in the order of its ids.
  pub pv_window-append_pvs :
      (account_id : String) (window_size : ℤ) (past pvs : List F) (s : RiskStore F)
      → IsOrdered s.pv_history
      → pv_window account_id s ≡ take_last (pos_part window_size + 1) past
      → All (λ pv. fl.is_nan pv ≡ false) pvs
      → pv_window account_id (append_pvs account_id window_size pvs s)
        ≡ take_last (pos_part window_size + 1) (past ++ pvs)
  unfolding append_pvs
  pv_window-append_pvs account_id window_size past [] s ordered held numbers =
      held ∙ ap (take_last (pos_part window_size + 1)) (sym (append-nil past))
  pv_window-append_pvs account_id window_size past (pv ∷ pvs) s ordered held numbers =
      let keep = pos_part window_size + 1 in
      let step = append_pv_lem account_id pv window_size none s numbers.0 ordered in
      pv_window-append_pvs account_id window_size (past ++ pv ∷ []) pvs
        (append_pv account_id pv window_size none s).1 step.3
        (step.1 ∙ ap (λ w. take_last keep (w ++ pv ∷ [])) held ∙ take_last-snoc keep past pv)
        numbers.1
      ∙ ap (take_last keep) (append_assoc past (pv ∷ []) pvs)

  length-returns_from : (prev : F) (xs : List F) → length (returns_from prev xs) ≤ length xs
  unfolding returns_from
  length-returns_from prev [] = omega arith
  length-returns_from prev (x ∷ xs) = ground (arith, length-returns_from x xs)

  -- From a window of at most `n + 1` values there are at most `n` returns.
  length-returns_of : (n : ℕ) (xs : List F) → length xs ≤ n + 1 → length (returns_of xs) ≤ n
  unfolding returns_of
  length-returns_of n [] h = omega arith
  length-returns_of n (x ∷ xs) h = omega (arith, length-returns_from x xs)

  -- After a sample that is no NaN, to a table in the order of its ids, there are at most
  -- `window_size` returns.
  pub length-pv_returns :
      (account_id : String) (pv : F) (window_size : ℤ) (time : Option String) (s : RiskStore F)
      → fl.is_nan pv ≡ false
      → IsOrdered s.pv_history
      → length (pv_returns account_id (append_pv account_id pv window_size time s).1)
        ≤ pos_part window_size
  unfolding pv_returns
  length-pv_returns account_id pv window_size time s number ordered =
      let keep = pos_part window_size + 1 in
      rw ((append_pv_lem account_id pv window_size time s number ordered).1) (
        length-returns_of (pos_part window_size) _
          (length-take_last-le keep (pv_window account_id s ++ pv ∷ [])))

  -- A NaN is refused with an IntegrityError, and the store stays as it was.
  pub append_pv_nan :
      (account_id : String) (pv : F) (window_size : ℤ) (time : Option String) (s : RiskStore F)
      → fl.is_nan pv ≡ true
      → append_pv account_id pv window_size time s ≡ (err integrity_error, s)
  unfolding append_pv
  append_pv_nan account_id pv window_size time s nan = rw nan
