-- ===== src/Outbox/Bus.antt =====
-- poc/outbox-idempotency/stream_bus.py: streams, consumer groups and their pending lists. The
-- entries are dicts of the clients, so their type is a parameter.
pub mod Delivery
pub mod Groups
pub mod Reads
use event_driven_trading_led.Base.{
  ℕ, suc, ◌+◌, String, Bool, Option, none, some, List, [], ◌∷◌, ◌++◌, ◌&&◌, ◌==◌, nat_eq, ltb, leb,
  length, select, not, if◌then◌else◌,
}
use event_driven_trading_led.Base.Exec.{
  Exec, Result, ok, err, key_error, gets, demand, modify, ◌>>=◌, ◌>>◌,
}
use event_driven_trading_led.Base.Dict.{Dict, lookup, insert}

-- the dict under `groups[(stream, group)]`
pub record Group (E : Type 0) : Type 0 where
  pub last : ℕ
  pub pel : List (ℕ × E)

-- an item of `groups`: its key and its value
pub record Member (E : Type 0) : Type 0 where
  pub stream : String
  pub group : String
  pub state : Group E

pub record StreamBus (E : Type 0) : Type 0 where
  pub streams : Dict (List (ℕ × E))
  pub groups : List (Member E)

module _ {E : Type 0} where
  abbrev pub empty_bus : StreamBus E
  empty_bus = record { streams = []; groups = [] }

  -- `streams.get(stream, [])`, and the list that `setdefault` leaves there
  unfoldable pub entries : String → StreamBus E → List (ℕ × E)
  entries stream b = elim (lookup stream b.streams) [ none ↦ [] | some es ↦ es ]

  unfoldable pub xadd : String → E → Exec (StreamBus E) ℕ
  unfolding entries
  xadd stream entry b =
      let es = entries stream b in
      let eid = length es + 1 in
      (ok eid, record b { streams = insert stream (es ++ (eid, entry) ∷ []) b.streams })

  unfoldable pub stream_len : String → StreamBus E → ℕ
  unfolding entries
  stream_len stream b = length (entries stream b)

  unfoldable pub find_group : String → String → List (Member E) → Option (Group E)
  find_group s g [] = none
  find_group s g (m ∷ ms) =
      if m.stream == s && m.group == g then some m.state else find_group s g ms

  -- `groups[(stream, group)] = state`
  unfoldable pub put_group : String → String → Group E → List (Member E) → List (Member E)
  put_group s g v [] = record { stream = s; group = g; state = v } ∷ []
  put_group s g v (m ∷ ms) =
      if m.stream == s && m.group == g then record m { state = v } ∷ ms else m ∷ put_group s g v ms

  unfoldable pub xgroup_create : String → String → ℕ → Exec (StreamBus E) Unit
  unfolding entries put_group
  xgroup_create stream group start b = (
    ok tt,
    record {
      streams = insert stream (entries stream b) b.streams;
      groups = put_group stream group (record { last = start; pel = [] }) b.groups;
    },
  )

  -- `pel[eid] = entry`
  unfoldable pub pel_put : ℕ → E → List (ℕ × E) → List (ℕ × E)
  pel_put i e [] = (i, e) ∷ []
  pel_put i e ((j, f) ∷ l) = if nat_eq j i then (j, e) ∷ l else (j, f) ∷ pel_put i e l

  -- the loop of `xreadgroup`, on the entries that are left, the group and `out`
  unfoldable pub read_loop : ℕ → List (ℕ × E) → Group E → List (ℕ × E) → List (ℕ × E) × Group E
  read_loop count [] g out = (out, g)
  read_loop count ((eid, entry) ∷ rest) g out =
      let g' : Group E = record { last = eid; pel = pel_put eid entry g.pel } in
      let out' = out ++ (eid, entry) ∷ [] in
      let skipped = read_loop count rest g out in
      let more = read_loop count rest g' out' in
      if ltb g.last eid then (if leb count (length out') then (out', g') else more) else skipped

  unfoldable pub xreadgroup : String → String → ℕ → Exec (StreamBus E) (List (ℕ × E))
  unfolding find_group put_group read_loop
  xreadgroup stream group count = do
    g ← demand (λ b. find_group stream group b.groups) key_error
    es ← demand (λ b. lookup stream b.streams) key_error
    let r = read_loop count es g []
    modify (λ b. record b { groups = put_group stream group r.1 b.groups })
    gets (λ _. r.0)

  -- `pel.pop(eid, None)`
  unfoldable pub pel_drop : ℕ → List (ℕ × E) → List (ℕ × E)
  unfolding select
  pel_drop eid pel = select (λ e. not (nat_eq e.0 eid)) pel

  unfoldable pub xack : String → String → ℕ → Exec (StreamBus E) Unit
  unfolding find_group put_group pel_drop
  xack stream group eid = do
    g ← demand (λ b. find_group stream group b.groups) key_error
    modify (λ b. record b {
      groups = put_group stream group (record g { pel = pel_drop eid g.pel }) b.groups;
    })

  -- `xpending`, and the list of `redeliver_pending`
  unfoldable pub xpending : String → String → Exec (StreamBus E) (List (ℕ × E))
  unfolding find_group
  xpending stream group = do
    g ← demand (λ b. find_group stream group b.groups) key_error
    gets (λ _. g.pel)

  unfoldable pub redeliver_pending : String → String → Exec (StreamBus E) (List (ℕ × E))
  unfolding xpending
  redeliver_pending = xpending

  unfoldable pub setid : String → String → ℕ → Exec (StreamBus E) Unit
  unfolding put_group
  setid stream group start b = (
    ok tt,
    record b { groups = put_group stream group (record { last = start; pel = [] }) b.groups },
  )
