-- ===== src/Outbox/Bus/Reads.antt =====
-- `xreadgroup` on a bus whose stream is numbered from 1, and what `xadd` keeps of that.
use event_driven_trading_led.Base.{
  ℕ, suc, ◌+◌, String, ◌≡◌, sym, subst, some, List, [], ◌∷◌, ◌++◌, arith, length,
  take-append-take-drop, append_assoc,
}
use event_driven_trading_led.Base.Exec.{ok, pure, ◌>>=◌}
use event_driven_trading_led.Base.Dict.{lookup, lookup-insert_self}
use event_driven_trading_led.Outbox.Bus.{
  StreamBus, Group, entries, find_group, put_group, xadd, xreadgroup,
}
use event_driven_trading_led.Outbox.Bus.Delivery.{
  IsNumbered, IsBelow, batch, last_id, undelivered, read_loop_lem, undelivered-batch,
  advance-IsBelow, last_id-append,
}
use event_driven_trading_led.Outbox.Bus.Groups.{find_group-put_group_self, put_group-put_group}

module _ {E : Type 0} where
  -- the stream and the group are there, the stream is numbered, and nothing is pending that was
  -- not delivered
  pub record IsReady (stream group : String) (es : List (ℕ × E)) (g : Group E) (b : StreamBus E)
      : Type 0 where
    pub has_stream : lookup stream b.streams ≡ some es
    pub has_group : find_group stream group b.groups ≡ some g
    pub numbered : IsNumbered 0 es
    pub below : IsBelow g.last g.pel

  -- the group after a batch
  abbrev pub advance : ℕ → List (ℕ × E) → Group E → Group E
  advance count es g =
      let b = batch count g.last es in record { last = last_id g.last b; pel = g.pel ++ b }

  abbrev pub after_read : String → String → ℕ → List (ℕ × E) → Group E → StreamBus E → StreamBus E
  after_read stream group count es g b = record b {
    groups = put_group stream group (advance count es g) b.groups;
  }

  -- A read returns the first `suc k` undelivered entries, makes them pending, and moves the cursor
  -- to the last of them.
  pub xreadgroup_lem :
      (stream group : String) (k : ℕ) (es : List (ℕ × E)) (g : Group E) (b : StreamBus E)
      → IsReady stream group es g b
      → xreadgroup stream group (suc k) b
        ≡ (ok (batch (suc k) g.last es), after_read stream group (suc k) es g b)
  unfolding xreadgroup
  xreadgroup_lem stream group k es g b r = ground (
    arith,
    read_loop_lem k (suc k) 0 es g [] r.numbered r.below (omega arith),
    r.has_stream,
    r.has_group,
  )

  pub after_read-IsReady :
      (stream group : String) (k : ℕ) (es : List (ℕ × E)) (g : Group E) (b : StreamBus E)
      → IsReady stream group es g b
      → IsReady stream group es (advance k es g) (after_read stream group k es g b)
  after_read-IsReady stream group k es g b r = record {
    has_stream = r.has_stream;
    has_group = find_group-put_group_self stream group (advance k es g) b.groups;
    numbered = r.numbered;
    below = advance-IsBelow k 0 g.last es g.pel r.numbered r.below;
  }

  batch-append :
      (k j last : ℕ) (es : List (ℕ × E))
      → IsNumbered 0 es
      → batch k last es ++ batch j (last_id last (batch k last es)) es ≡ batch (k + j) last es
  batch-append k j last es num =
      rw (undelivered-batch k 0 last es num) (take-append-take-drop k j (undelivered last es))

  advance-advance :
      (k j : ℕ) (es : List (ℕ × E)) (g : Group E)
      → IsNumbered 0 es
      → advance j es (advance k es g) ≡ advance (k + j) es g
  advance-advance k j es g num =
      let xs = batch k g.last es in
      let ys = batch j (last_id g.last xs) es in
      cc (batch-append k j g.last es num, last_id-append g.last xs ys, append_assoc g.pel xs ys)

  -- Two reads in a row, of positive counts, deliver what one read of both counts would, in order,
  -- and leave the bus as that read would: no entry is delivered twice and none is passed over, where
  -- the stream and the group are there, the entries are numbered, and what is pending was delivered.
  pub xreadgroup-xreadgroup :
      (stream group : String) (k j : ℕ) (es : List (ℕ × E)) (g : Group E) (b : StreamBus E)
      → IsReady stream group es g b
      → (do
        xs ← xreadgroup stream group (suc k)
        ys ← xreadgroup stream group (suc j)
        pure (xs ++ ys))
          b
        ≡ xreadgroup stream group (suc k + suc j) b
  xreadgroup-xreadgroup stream group k j es g b r =
      let g' = advance (suc k) es g in
      let b' = after_read stream group (suc k) es g b in
      let n : suc (k + suc j) ≡ suc k + suc j = omega arith in
      let whole =
        subst
          (λ c.
            xreadgroup stream group c b
            ≡ (ok (batch c g.last es), after_read stream group c es g b))
          n (xreadgroup_lem stream group (k + suc j) es g b r) in
      rw
        (
          xreadgroup_lem stream group k es g b r,
          xreadgroup_lem stream group j es g' b' (after_read-IsReady stream group (suc k) es g b r),
        )
        (cc (
          whole,
          batch-append (suc k) (suc j) g.last es r.numbered,
          advance-advance (suc k) (suc j) es g r.numbered,
          put_group-put_group stream group (advance (suc j) es g') g' b.groups,
        ))

  pub IsNumbered-append :
      (n i : ℕ) (es : List (ℕ × E)) (e : E)
      → IsNumbered n es
      → i ≡ n + length es + 1
      → IsNumbered n (es ++ (i, e) ∷ [])
  IsNumbered-append n i [] e h eq = omega arith
  IsNumbered-append n i ((k, f) ∷ es) e h eq =
      (h.0, IsNumbered-append (suc n) i es e h.1 (omega arith))

  pub entries-xadd :
      (stream : String) (e : E) (b : StreamBus E)
      → entries stream (xadd stream e b).1
        ≡ entries stream b ++ (length (entries stream b) + 1, e) ∷ []
  unfolding xadd
  entries-xadd stream e b =
      let es = entries stream b in
      ground (arith, lookup-insert_self stream (es ++ (length es + 1, e) ∷ []) b.streams)

  -- `xadd` numbers its entry next, so the stream stays numbered from 1.
  pub xadd-IsNumbered :
      (stream : String) (e : E) (b : StreamBus E)
      → IsNumbered 0 (entries stream b)
      → IsNumbered 0 (entries stream (xadd stream e b).1)
  xadd-IsNumbered stream e b h =
      subst (IsNumbered 0) (sym (entries-xadd stream e b))
        (IsNumbered-append 0 _ (entries stream b) e h (omega arith))
