-- ===== src/Outbox/Bus/Groups.antt =====
-- The dict `groups` of the bus, and a pending list under an acknowledgement.
use event_driven_trading_led.Base.{
  ℕ, ◌<◌, String, ◌≡◌, refl, some, List, [], ◌∷◌, arith, eq_iff, ◌==◌, ◌&&◌, select, if◌then◌else◌,
  All,
}
use event_driven_trading_led.Base.Exec.{ok}
use event_driven_trading_led.Outbox.Bus.{
  StreamBus, Group, Member, find_group, put_group, pel_drop, xack, redeliver_pending,
}

module _ {E : Type 0} where
  -- A group that is written is found as written, and every other as it was.
  pub find_group-put_group :
      (s g t h : String) (v : Group E) (ms : List (Member E))
      → find_group t h (put_group s g v ms)
        ≡ (if s == t && g == h then some v else find_group t h ms)
  unfolding find_group put_group
  find_group-put_group s g t h v [] = refl
  find_group-put_group s g t h v (m ∷ ms) = ground (
    arith,
    find_group-put_group s g t h v ms,
    eq_iff s t,
    eq_iff g h,
    eq_iff m.stream s,
    eq_iff m.stream t,
    eq_iff m.group g,
    eq_iff m.group h,
  )

  pub find_group-put_group_self :
      (s g : String) (v : Group E) (ms : List (Member E))
      → find_group s g (put_group s g v ms) ≡ some v
  find_group-put_group_self s g v ms =
      ground (arith, find_group-put_group s g s g v ms, eq_iff s s, eq_iff g g)

  pub put_group-put_group :
      (s g : String) (v w : Group E) (ms : List (Member E))
      → put_group s g v (put_group s g w ms) ≡ put_group s g v ms
  unfolding put_group
  put_group-put_group s g v w [] = ground (arith, eq_iff s s, eq_iff g g)
  put_group-put_group s g v w (m ∷ ms) = ground (arith, put_group-put_group s g v w ms)

  -- An acknowledgement takes out its own entry and no other.
  pub pel_drop-head :
      (i : ℕ) (e : E) (pel : List (ℕ × E))
      → All (λ x. i < x.0) pel
      → pel_drop i ((i, e) ∷ pel) ≡ pel
  unfolding pel_drop select
  pel_drop-head i e [] h = ground arith
  pel_drop-head i e ((j, f) ∷ pel) h = ground (arith, pel_drop-head i e pel h.1)

  pub xack_lem :
      (s g : String) (i : ℕ) (v : Group E) (b : StreamBus E)
      → find_group s g b.groups ≡ some v
      → xack s g i b ≡ (
        ok tt,
        record b { groups = put_group s g (record v { pel = pel_drop i v.pel }) b.groups },
      )
  unfolding xack
  xack_lem s g i v b h = ground (arith, h)

  pub put_group_same :
      (s g : String) (v : Group E) (ms : List (Member E))
      → find_group s g ms ≡ some v
      → put_group s g v ms ≡ ms
  unfolding find_group put_group
  put_group_same s g v [] h = cc
  put_group_same s g v (m ∷ ms) h = ground (arith, put_group_same s g v ms)

  pub redeliver_pending_lem :
      (s g : String) (v : Group E) (b : StreamBus E)
      → find_group s g b.groups ≡ some v
      → redeliver_pending s g b ≡ (ok v.pel, b)
  unfolding redeliver_pending
  redeliver_pending_lem s g v b h = ground (arith, h)
