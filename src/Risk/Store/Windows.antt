-- ===== src/Risk/Store/Windows.antt =====
-- The rolling windows of store.py: after each append a key keeps its newest rows, and no other key
-- loses one.
use event_driven_trading_led.Base.{
  ℕ, zero, suc, ◌<◌, ◌≤◌, String, ◌≡◌, refl, ap, sym, subst, ◌∙◌, Bool, false, Option, not, inl,
  inr, Bool-cases, reverse-reverse, reverse-append, ◌&&◌, List, [], ◌∷◌, ◌++◌, arith, eq_iff, ◌==◌,
  nat_eq, map, reverse, take, take_last, select, any, map-append, reverse-cons, select-reverse,
}
use event_driven_trading_led.Risk.Store.{
  HistoryRow, History, rows_of, newest_ids, insert_row, evict,
}

module _ {F : Type 0} where
  abbrev row_ids : List (HistoryRow F) → List ℕ
  row_ids = map (λ r. r.id)

  -- ids fall, from below a bound
  abbrev IsFalling : ℕ → List (HistoryRow F) → Type 0
  IsFalling n [] = Unit
  IsFalling n (r ∷ rs) = (r.id < n) × IsFalling r.id rs

  -- ids rise to below a bound, as the primary key orders a table
  abbrev pub IsRising : ℕ → List (HistoryRow F) → Type 0
  IsRising n rs = IsFalling n (reverse rs)

  abbrev member : List ℕ → HistoryRow F → Bool
  member ks r = any (nat_eq r.id) ks

  not_member :
      (n : ℕ) (k : ℕ) (rs : List (HistoryRow F))
      → IsFalling n rs
      → n ≤ k
      → any (nat_eq k) (row_ids rs) ≡ false
  not_member n k [] h le = refl
  not_member n k (r ∷ rs) h le = ground (arith, not_member r.id k rs h.1)

  member_skip :
      (n k : ℕ) (ks : List ℕ) (rs : List (HistoryRow F))
      → IsFalling n rs
      → n ≤ k
      → select (member (k ∷ ks)) rs ≡ select (member ks) rs
  unfolding select
  member_skip n k ks [] h le = refl
  member_skip n k ks (r ∷ rs) h le = ground (arith, member_skip r.id k ks rs h.1)

  -- Among falling ids, the rows with one of the first `k` ids are the first `k` rows.
  select-take :
      (k n : ℕ) (rs : List (HistoryRow F))
      → IsFalling n rs
      → select (member (take k (row_ids rs))) rs ≡ take k rs
  unfolding select
  select-take zero n [] h = refl
  select-take zero n (r ∷ rs) h = select-take zero r.id rs h.1
  select-take (suc k) n [] h = refl
  select-take (suc k) n (r ∷ rs) h =
      ground (arith, select-take k r.id rs h.1, member_skip r.id r.id (take k (row_ids rs)) rs h.1)

  IsFalling-mono : (m n : ℕ) (rs : List (HistoryRow F)) → IsFalling m rs → m ≤ n → IsFalling n rs
  IsFalling-mono m n [] h le = tt
  IsFalling-mono m n (r ∷ rs) h le = (omega arith, h.1)

  IsFalling-select :
      (p : HistoryRow F → Bool) (n : ℕ) (rs : List (HistoryRow F))
      → IsFalling n rs
      → IsFalling n (select p rs)
  unfolding select
  IsFalling-select p n [] h = tt
  IsFalling-select p n (r ∷ rs) h = elim (Bool-cases (p r)) [
    | inl stays ↦ rw stays (h.0, IsFalling-select p r.id rs h.1)
    | inr goes ↦ rw goes (IsFalling-select p n rs (IsFalling-mono r.id n rs h.1 (omega arith)))
  ]

  map-reverse : (rs : List (HistoryRow F)) → reverse (row_ids rs) ≡ row_ids (reverse rs)
  map-reverse [] = refl
  map-reverse (r ∷ rs) =
      reverse-cons r.id (row_ids rs)
      ∙ ap (λ ks. ks ++ r.id ∷ []) (map-reverse rs)
      ∙ sym (map-append (λ (x : HistoryRow F). x.id) (reverse rs) (r ∷ []))
      ∙ ap row_ids (sym (reverse-cons r rs))

  -- Among rising ids, the rows with one of the newest `k` ids are the last `k` rows.
  select-newest :
      (k n : ℕ) (rs : List (HistoryRow F))
      → IsRising n rs
      → select (member (take k (reverse (row_ids rs)))) rs ≡ take_last k rs
  select-newest k n rs h =
      let p = member (take k (reverse (row_ids rs))) in
      sym (reverse-reverse (select p rs))
      ∙ ap reverse (sym (select-reverse p rs))
      ∙ ap (λ ks. reverse (select (member (take k ks)) (reverse rs))) (map-reverse rs)
      ∙ ap reverse (select-take k n (reverse rs) h)

  rows_of-evicted :
      (key : String) (ks : List ℕ) (rs : List (HistoryRow F))
      → select
          (λ r. r.key == key)
          (select (λ r. not (r.key == key && not (any (nat_eq r.id) ks))) rs)
        ≡ select (member ks) (select (λ r. r.key == key) rs)
  unfolding select
  rows_of-evicted key ks [] = refl
  rows_of-evicted key ks (r ∷ rs) = ground (arith, rows_of-evicted key ks rs)

  others-evicted :
      (key other : String) (ks : List ℕ) (rs : List (HistoryRow F))
      → (other == key) ≡ false
      → select
          (λ r. r.key == other)
          (select (λ r. not (r.key == key && not (any (nat_eq r.id) ks))) rs)
        ≡ select (λ r. r.key == other) rs
  unfolding select
  others-evicted key other ks [] h = refl
  others-evicted key other ks (r ∷ rs) h = ground (
    arith,
    others-evicted key other ks rs h,
    eq_iff r.key other,
    eq_iff r.key key,
    eq_iff other key,
  )

  -- the table is in the order of its ids, which stay below the next one
  abbrev pub IsOrdered : History F → Type 0
  IsOrdered h = IsRising h.next_id h.rows

  rows_of-IsRising :
      (key : String) (h : History F) → IsOrdered h → IsRising h.next_id (rows_of key h)
  unfolding rows_of
  rows_of-IsRising key h ordered =
      subst (IsFalling h.next_id) (select-reverse (λ r. r.key == key) h.rows)
        (IsFalling-select (λ r. r.key == key) h.next_id (reverse h.rows) ordered)

  pub rows_of-evict :
      (key : String) (keep : ℕ) (h : History F)
      → IsOrdered h
      → rows_of key (evict key keep h) ≡ take_last keep (rows_of key h)
  rows_of-evict key keep h ordered =
      unfold rows_of evict newest_ids in
      (rows_of-evicted key (newest_ids key keep h) h.rows
        ∙ select-newest keep h.next_id (rows_of key h) (rows_of-IsRising key h ordered))

  pub rows_of-evict_other :
      (key other : String) (keep : ℕ) (h : History F)
      → (other == key) ≡ false
      → rows_of other (evict key keep h) ≡ rows_of other h
  unfolding rows_of evict
  rows_of-evict_other key other keep h ne =
      others-evicted key other (newest_ids key keep h) h.rows ne

  pub evict-IsOrdered :
      (key : String) (keep : ℕ) (h : History F) → IsOrdered h → IsOrdered (evict key keep h)
  unfolding evict
  evict-IsOrdered key keep h ordered =
      let p = λ (r : HistoryRow F).
        not (r.key == key && not (any (nat_eq r.id) (newest_ids key keep h))) in
      subst (IsFalling h.next_id) (select-reverse p h.rows)
        (IsFalling-select p h.next_id (reverse h.rows) ordered)

  pub insert_row-IsOrdered :
      (key : String) (v : F) (time : Option String) (h : History F)
      → IsOrdered h
      → IsOrdered (insert_row key v time h)
  unfolding insert_row
  insert_row-IsOrdered key v time h ordered =
      subst (IsFalling (suc h.next_id)) (sym (reverse-append h.rows _)) (omega arith, ordered)
