-- ===== src/Native/Process/Main.antt =====
-- `main` of poc/native-kill-restart/consumer_proc.py, from the creation of the group on, over the
-- replies that redis_client.py reads.
use event_driven_trading_led.Base.{
  ℕ, String, ◌≡◌, refl, Bool, Option, none, some, List, [], ◌∷◌, map, All, ap,
}
use event_driven_trading_led.Base.Exec.{Exec, Result, ok, pure, lift, ◌>>=◌, ◌>>◌}
use event_driven_trading_led.Base.Dict.{Dict, lookup}
use event_driven_trading_led.Base.Float.{Float}
use event_driven_trading_led.Risk.Json.{Value}
use event_driven_trading_led.Risk.Wire.{StreamFields}
use event_driven_trading_led.Native.Client.{
  Raw, RawEntry, RawClaim, claimed_with, Reply, ClientEntry, to_str, xgroup_create, xautoclaim,
  xreadgroup, xpending_count,
}
use event_driven_trading_led.Base.Keys.{HasDistinctKeys}
use event_driven_trading_led.Native.Client.Stored.{
  intact, intact_of, stored_entry, returned, raw_claimed, reads-stored_entry,
}
use event_driven_trading_led.Native.Process.{
  StreamEntry, Round, ProcessEnd, still_running, ConsumerRun, reclaim_each, poll, consume,
}

-- `fields.get("event")`
abbrev pub event_field : Dict (Option String) → Option String
event_field fields = elim (lookup "event" fields) [ none ↦ none | some v ↦ v ]

abbrev pub entry_of : ClientEntry → StreamEntry
entry_of e = record { entry_id = e.0; event = event_field e.1 }

-- the replies in one round of the loop
pub record RawRound (B : Type 0) : Type 0 where
  pub claim : RawClaim B
  pub read : Option (List (String × Option (List (RawEntry B))))
  pub summary : Option (Dict ℕ)

module _ {F B : Type 0} ⦃fl : Float F⦄ (loads : String → Option (Value F))
    (decode : B → Result String) where
  -- the loop
  pub consume_raw : ℕ → ℕ → List (RawRound B) → Exec (ConsumerRun F) ProcessEnd
  consume_raw die max_idle [] = pure still_running
  consume_raw die max_idle (r ∷ rs) = do
    claim ← lift (xautoclaim decode r.claim)
    reclaim_each loads (map entry_of claim.1)
    new_entries ← lift (xreadgroup decode r.read)
    poll loads die max_idle (xpending_count r.summary) (map entry_of new_entries)
        (consume_raw die max_idle rs)

  pub consumer_main :
      (String → Bool) → Reply Unit → ℕ → ℕ → List (RawRound B) → Exec (ConsumerRun F) ProcessEnd
  consumer_main is_busy group_reply die max_idle rounds = do
    lift (xgroup_create is_busy group_reply)
    consume_raw die max_idle rounds

-- what the relay adds to the stream: an id, and the fields of `build_stream_fields`
abbrev pub Sent : Type 0
Sent = String × StreamFields

abbrev pub sent_entry : Sent → ClientEntry
sent_entry (i, f) = (
  i,
  ("event_type", some f.event_type)
      ∷ ("schema_version", some f.schema_version)
      ∷ ("event", some f.event)
      ∷ [],
)

-- a round in which such entries are claimed and read
pub record SentRound : Type 0 where
  pub claimed : List Sent
  pub new_entries : List Sent
  pub pending : ℕ

abbrev plain_entry : Sent → StreamEntry
plain_entry (i, f) = record { entry_id = i; event = some f.event }

abbrev pub plain_round : SentRound → Round
plain_round r = record {
  claimed = map plain_entry r.claimed;
  new_entries = map plain_entry r.new_entries;
  pending = r.pending;
}

module _ {B : Type 0} (decode : B → Result String) (write : String → Raw B)
    (stream cursor : String) where
  -- its replies
  abbrev pub raw_round : SentRound → RawRound B
  raw_round r = record {
    claim =
        claimed_with (write cursor)
          (some (map (raw_claimed decode write) (map intact (map sent_entry r.claimed))));
    read =
        some ((stream, some (map (stored_entry decode write) (map sent_entry r.new_entries))) ∷ []);
    summary = some (("pending", r.pending) ∷ []);
  }

  intact_of-map : (es : List ClientEntry) → intact_of (map intact es) ≡ es
  intact_of-map [] = refl
  intact_of-map (e ∷ es) = ap (◌∷◌ e) (intact_of-map es)

  distinct_sent : (es : List Sent) → All (λ e. HasDistinctKeys e.1) (map sent_entry es)
  distinct_sent [] = tt
  distinct_sent (e ∷ es) = (((refl, (refl, tt)), ((refl, tt), (tt, tt))), distinct_sent es)

  entries_sent :
      (es : List Sent) → map entry_of (map returned (map sent_entry es)) ≡ map plain_entry es
  unfolding lookup
  entries_sent [] = refl
  entries_sent (e ∷ es) = ap (◌∷◌ (plain_entry e)) (entries_sent es)

  module _ {F : Type 0} ⦃fl : Float F⦄ (loads : String → Option (Value F)) where
    -- one round's replies, as the client reads them
    round_read :
        (r : SentRound)
        → ((s : String) → to_str decode (write s) ≡ ok s)
        → (xautoclaim decode (raw_round r).claim
            ≡ ok (cursor, map returned (map sent_entry r.claimed)))
          × (xreadgroup decode (raw_round r).read
              ≡ ok (map returned (map sent_entry r.new_entries)))
    round_read r reads =
        let claimed = map sent_entry r.claimed in
        let same = intact_of-map claimed in
        let (_, new, old) =
          reads-stored_entry decode write (map sent_entry r.new_entries) (map intact claimed) stream
            cursor reads (distinct_sent r.new_entries) (rw same (distinct_sent r.claimed)) in
        (rw same at old, new)

    pending_of : (r : SentRound) → xpending_count (raw_round r).summary ≡ r.pending
    unfolding xpending_count lookup
    pending_of r = refl

    consume_raw_lem :
        (die max_idle : ℕ) (rs : List SentRound)
        → ((s : String) → to_str decode (write s) ≡ ok s)
        → consume_raw loads decode die max_idle (map raw_round rs)
          ≡ consume loads die max_idle (map plain_round rs)
    unfolding consume_raw consume
    consume_raw_lem die max_idle [] reads = refl
    consume_raw_lem die max_idle (r ∷ rs) reads =
        let (claimed, new) = round_read r reads in
        let rest = consume loads die max_idle (map plain_round rs) in
        rw (claimed, new, pending_of r, consume_raw_lem die max_idle rs reads)
          (λ i.
            reclaim_each loads (entries_sent r.claimed i)
            >> poll loads die max_idle r.pending (entries_sent r.new_entries i) rest)

    -- The group is created or exists already, and each round's replies have entries that the relay
    -- added, in texts that read back as they were written. Then the process does what the loop does
    -- with the ids and the payloads of those entries and the count of the pending ones.
    pub consumer_main_lem :
        (is_busy : String → Bool) (reply : Reply Unit) (die max_idle : ℕ) (rs : List SentRound)
        (s : ConsumerRun F)
        → ((t : String) → to_str decode (write t) ≡ ok t)
        → xgroup_create is_busy reply ≡ ok tt
        → consumer_main loads decode is_busy reply die max_idle (map raw_round rs) s
          ≡ consume loads die max_idle (map plain_round rs) s
    unfolding consumer_main
    consumer_main_lem is_busy reply die max_idle rs s reads created =
        rw (created, consume_raw_lem die max_idle rs reads) refl
