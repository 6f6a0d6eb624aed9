-- ===== src/Outbox/Bus/Delivery.antt =====
-- What a group is delivered: the entries behind its cursor, in order, each once.
use event_driven_trading_led.Base.{
  ℕ, zero, suc, ◌+◌, ◌≤◌, ◌<◌, ◌≡◌, refl, sym, subst, false, inl, inr, List, [], ◌∷◌, ◌++◌, arith,
  ltb, length, take, drop, select, All, Bool-cases, append_assoc, append-nil, length-append,
}
use event_driven_trading_led.Outbox.Bus.{Group, pel_put, read_loop}

module _ {E : Type 0} where
  -- the entries of a stream carry the numbers from `n + 1` on
  abbrev pub IsNumbered : ℕ → List (ℕ × E) → Type 0
  IsNumbered n [] = Unit
  IsNumbered n ((i, e) ∷ es) = (i ≡ suc n) × IsNumbered (suc n) es

  -- what is pending has been delivered
  abbrev pub IsBelow : ℕ → List (ℕ × E) → Type 0
  IsBelow n = All (λ e. e.0 ≤ n)

  -- the entries behind the cursor, and the batch that a read of `count` takes of them
  abbrev pub undelivered : ℕ → List (ℕ × E) → List (ℕ × E)
  undelivered last = select (λ e. ltb last e.0)

  abbrev pub batch : ℕ → ℕ → List (ℕ × E) → List (ℕ × E)
  batch count last es = take count (undelivered last es)

  abbrev pub last_id : ℕ → List (ℕ × E) → ℕ
  last_id d [] = d
  last_id d ((i, e) ∷ es) = last_id i es

  pel_put-fresh :
      (i n : ℕ) (e : E) (pel : List (ℕ × E))
      → IsBelow n pel
      → n < i
      → pel_put i e pel ≡ pel ++ (i, e) ∷ []
  unfolding pel_put
  pel_put-fresh i n e [] b h = refl
  pel_put-fresh i n e ((j, f) ∷ pel) b h = ground (arith, pel_put-fresh i n e pel b.1 h)

  IsBelow-append :
      (m n : ℕ) (e : E) (pel : List (ℕ × E))
      → IsBelow m pel
      → m ≤ n
      → IsBelow n (pel ++ (n, e) ∷ [])
  IsBelow-append m n e [] b h = omega arith
  IsBelow-append m n e ((j, f) ∷ pel) b h = (omega arith, IsBelow-append m n e pel b.1 h)

  -- every entry is behind a cursor that has not reached the first
  pub undelivered_all :
      (n last : ℕ) (es : List (ℕ × E)) → IsNumbered n es → last ≤ n → undelivered last es ≡ es
  unfolding select
  undelivered_all n last [] h le = refl
  undelivered_all n last ((i, e) ∷ es) h le = ground (arith, undelivered_all (suc n) last es h.1)

  -- The loop appends the next `suc k` undelivered entries to its output and to the pending list.
  pub read_loop_lem :
      (k count n : ℕ) (es : List (ℕ × E)) (g : Group E) (out : List (ℕ × E))
      → IsNumbered n es
      → IsBelow g.last g.pel
      → count ≡ length out + suc k
      → let b = batch (suc k) g.last es in
        read_loop count es g out ≡ (out ++ b, record { last = last_id g.last b; pel = g.pel ++ b })
  unfolding read_loop select
  read_loop_lem k count n [] g out num below room = rw (append-nil out, append-nil g.pel)
  read_loop_lem zero count n ((i, e) ∷ es) g out num below room = elim (Bool-cases (ltb g.last i)) [
    | inl new ↦
        ground (arith, length-append out ((i, e) ∷ []), pel_put-fresh i g.last e g.pel below)
    | inr old ↦ rw old (read_loop_lem zero count (suc n) es g out num.1 below room)
  ]
  read_loop_lem (suc k) count n ((i, e) ∷ es) g out num below room =
      elim (Bool-cases (ltb g.last i)) [
        | inl new ↦
            let behind : g.last < i = ground arith in
            let p = g.pel ++ (i, e) ∷ [] in
            let g' : Group E = record { last = i; pel = p } in
            let o = out ++ (i, e) ∷ [] in
            ground (
              arith,
              pel_put-fresh i g.last e g.pel below behind,
              read_loop_lem k count (suc n) es g' o num.1
                  (IsBelow-append g.last i e g.pel below (omega arith))
                  (omega (arith, length-append out ((i, e) ∷ []))),
              undelivered_all (suc n) g.last es num.1 (omega arith),
              undelivered_all (suc n) i es num.1 (omega arith),
              append_assoc out ((i, e) ∷ []) (batch (suc k) i es),
              append_assoc g.pel ((i, e) ∷ []) (batch (suc k) i es),
              length-append out ((i, e) ∷ []),
            )
        | inr old ↦ rw old (read_loop_lem (suc k) count (suc n) es g out num.1 below room)
      ]

  last_id-ge :
      (c n last : ℕ) (es : List (ℕ × E))
      → IsNumbered n es
      → last ≤ n
      → last ≤ last_id last (take c es)
  last_id-ge zero n last es h le = omega arith
  last_id-ge (suc c) n last [] h le = omega arith
  last_id-ge (suc c) n last ((i, e) ∷ es) h le =
      omega (arith, last_id-ge c (suc n) i es h.1 (omega arith))

  undelivered-last_id :
      (c n last : ℕ) (es : List (ℕ × E))
      → IsNumbered n es
      → last ≤ n
      → undelivered (last_id last (take c es)) es ≡ drop c es
  unfolding select
  undelivered-last_id zero n last es h le = undelivered_all n last es h le
  undelivered-last_id (suc c) n last [] h le = refl
  undelivered-last_id (suc c) n last ((i, e) ∷ es) h le = ground (
    arith,
    undelivered-last_id c (suc n) i es h.1 (omega arith),
    last_id-ge c (suc n) i es h.1 (omega arith),
  )

  last_id-batch-ge :
      (c n last : ℕ) (es : List (ℕ × E)) → IsNumbered n es → last ≤ last_id last (batch c last es)
  unfolding select
  last_id-batch-ge zero n last es h = omega arith
  last_id-batch-ge (suc c) n last [] h = omega arith
  last_id-batch-ge (suc c) n last ((i, e) ∷ es) h = ground (
    arith,
    last_id-batch-ge (suc c) (suc n) last es h.1,
    undelivered_all (suc n) last es h.1,
    last_id-ge c (suc n) i es h.1,
  )

  -- After a batch the undelivered entries are those that it left.
  pub undelivered-batch :
      (c n last : ℕ) (es : List (ℕ × E))
      → IsNumbered n es
      → undelivered (last_id last (batch c last es)) es ≡ drop c (undelivered last es)
  unfolding select
  undelivered-batch zero n last es h = refl
  undelivered-batch (suc c) n last [] h = refl
  undelivered-batch (suc c) n last ((i, e) ∷ es) h = ground (
    arith,
    undelivered-batch (suc c) (suc n) last es h.1,
    last_id-batch-ge (suc c) (suc n) last es h.1,
    undelivered_all (suc n) last es h.1,
    undelivered-last_id c (suc n) i es h.1,
    last_id-ge c (suc n) i es h.1,
  )

  pub last_id-append :
      (d : ℕ) (xs ys : List (ℕ × E)) → last_id d (xs ++ ys) ≡ last_id (last_id d xs) ys
  last_id-append d [] ys = refl
  last_id-append d ((i, e) ∷ xs) ys = last_id-append i xs ys

  IsBelow-mono : (m n : ℕ) (es : List (ℕ × E)) → IsBelow m es → m ≤ n → IsBelow n es
  IsBelow-mono m n [] h le = tt
  IsBelow-mono m n ((i, e) ∷ es) h le = (omega arith, IsBelow-mono m n es h.1 le)

  IsBelow-++ : (n : ℕ) (xs ys : List (ℕ × E)) → IsBelow n xs → IsBelow n ys → IsBelow n (xs ++ ys)
  IsBelow-++ n [] ys hx hy = hy
  IsBelow-++ n (x ∷ xs) ys hx hy = (hx.0, IsBelow-++ n xs ys hx.1 hy)

  take-IsBelow :
      (c n last : ℕ) (es : List (ℕ × E))
      → IsNumbered n es
      → last ≤ n
      → IsBelow (last_id last (take c es)) (take c es)
  take-IsBelow zero n last es h le = tt
  take-IsBelow (suc c) n last [] h le = tt
  take-IsBelow (suc c) n last ((i, e) ∷ es) h le = (
    omega (arith, last_id-ge c (suc n) i es h.1 (omega arith)),
    take-IsBelow c (suc n) i es h.1 (omega arith),
  )

  undelivered_old :
      (last i : ℕ) (e : E) (es : List (ℕ × E))
      → ltb last i ≡ false
      → undelivered last ((i, e) ∷ es) ≡ undelivered last es
  unfolding select
  undelivered_old last i e es h = rw h

  abbrev BatchBelow : ℕ → ℕ → List (ℕ × E) → Type 0
  BatchBelow c last es = IsBelow (last_id last (take c es)) (take c es)

  batch-IsBelow :
      (c n last : ℕ) (es : List (ℕ × E)) → IsNumbered n es → BatchBelow c last (undelivered last es)
  batch-IsBelow zero n last es h = tt
  batch-IsBelow (suc c) n last [] h = unfold select in tt
  batch-IsBelow (suc c) n last ((i, e) ∷ es) h = elim (Bool-cases (ltb last i)) [
    | inl new ↦
        subst (BatchBelow (suc c) last)
          (sym (undelivered_all n last ((i, e) ∷ es) h (ground arith)))
          (take-IsBelow (suc c) n last ((i, e) ∷ es) h (ground arith))
    | inr old ↦
        subst (BatchBelow (suc c) last) (sym (undelivered_old last i e es old))
          (batch-IsBelow (suc c) (suc n) last es h.1)
  ]

  -- With a batch added, what is pending has been delivered.
  pub advance-IsBelow :
      (c n last : ℕ) (es pel : List (ℕ × E))
      → IsNumbered n es
      → IsBelow last pel
      → IsBelow (last_id last (batch c last es)) (pel ++ batch c last es)
  advance-IsBelow c n last es pel h below =
      IsBelow-++ _ pel _ (IsBelow-mono last _ pel below (last_id-batch-ge c n last es h))
        (batch-IsBelow c n last es h)
