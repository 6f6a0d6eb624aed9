-- ===== src/Native/Client.antt =====
-- poc/native-kill-restart/redis_client.py: what the client makes of the replies of redis-py, which are
-- arguments. A text comes as a str or as bytes, of which `decode` is `v.decode("utf-8")`.
pub mod Stored
use event_driven_trading_led.Base.{
  ℕ, String, Bool, true, false, Option, none, some, List, [], ◌∷◌, ◌++◌, map, if◌then◌else◌,
}
use event_driven_trading_led.Base.Exec.{Result, ok, err, response_error, bind_result}
use event_driven_trading_led.Base.Dict.{Dict, lookup, insert}

-- a value in a reply
pub data Raw (B : Type 0) : Type 0 where
  raw_bytes : B → Raw B
  raw_text : String → Raw B

-- an entry in a reply: its id, and the items of its fields, which may be None
pub record RawEntry (B : Type 0) : Type 0 where
  pub raw_id : Raw B
  pub raw_fields : Option (List (Raw B × Option (Raw B)))

-- the reply of XAUTOCLAIM, by its length: nothing, a cursor, a cursor and entries with what follows
pub data RawClaim (B : Type 0) : Type 0 where
  no_claim : RawClaim B
  cursor_only : Raw B → RawClaim B
  claimed_with : Raw B → Option (List (Option (RawEntry B))) → RawClaim B

-- a reply, or a RedisError with its message
pub data Reply (A : Type 0) : Type 0 where
  replied : A → Reply A
  redis_error : String → Reply A

-- an entry as the client returns it
abbrev pub ClientEntry : Type 0
ClientEntry = String × Dict (Option String)

-- `x or []`
abbrev pub or_nothing : {A : Type 0} → Option (List A) → List A
or_nothing none = []
or_nothing (some xs) = xs

-- `int(self._r.delete(*keys))`, where there is a key
pub delete : (List String → ℕ) → List String → ℕ
delete send [] = 0
delete send (k ∷ ks) = send (k ∷ ks)

-- likewise of the ids
pub xack : (List String → ℕ) → List String → ℕ
xack send [] = 0
xack send (i ∷ ids) = send (i ∷ ids)

abbrev pub or_empty_text : Option String → String
or_empty_text none = ""
or_empty_text (some v) = v

-- the fields that `xadd` sends
abbrev pub clean : Dict (Option String) → Dict String
clean = map (λ item. (item.0, or_empty_text item.1))

pub ping : Bool → String
ping answered = if answered then "PONG" else ""

unfoldable pub xgroup_create : (String → Bool) → Reply (Unit {0}) → Result (Unit {0})
xgroup_create is_busy (replied _) = ok tt
xgroup_create is_busy (redis_error message) = if is_busy message then ok tt else err response_error

pub xgroup_destroy : Reply ℕ → ℕ
xgroup_destroy (replied n) = n
xgroup_destroy (redis_error _) = 0

-- the summary is a dict, or None
unfoldable pub xpending_count : Option (Dict ℕ) → ℕ
xpending_count none = 0
xpending_count (some summary) = elim (lookup "pending" summary) [ none ↦ 0 | some n ↦ n ]

module _ {B : Type 0} where
  -- the entries of all streams of a reply, in order
  abbrev pub joined_streams : List (String × Option (List (RawEntry B))) → List (RawEntry B)
  joined_streams [] = []
  joined_streams ((_, es) ∷ streams) = or_nothing es ++ joined_streams streams

  -- the entries that are neither nil nor deleted
  pub present : List (Option (RawEntry B)) → List (RawEntry B)
  present [] = []
  present (none ∷ es) = present es
  present (some e ∷ es) = elim e.raw_fields [ none ↦ present es | some _ ↦ e ∷ present es ]

module _ {B : Type 0} (decode : B → Result String) where
  -- `_to_str`
  unfoldable pub to_str : Raw B → Result String
  to_str (raw_bytes b) = decode b
  to_str (raw_text s) = ok s

  pub to_value : Option (Raw B) → Result (Option String)
  to_value none = ok none
  to_value (some v) = bind_result (to_str v) λ s. ok (some s)

  -- the loop of `_decode_entry`
  pub decode_fields :
      List (Raw B × Option (Raw B)) → Dict (Option String) → Result (Dict (Option String))
  decode_fields [] fields = ok fields
  decode_fields ((k, v) ∷ items) fields =
      bind_result (to_value v)
        λ value. bind_result (to_str k) λ key. decode_fields items (insert key value fields)

  pub decode_entry : RawEntry B → Result ClientEntry
  decode_entry e = bind_result (to_str e.raw_id) λ entry_id.
      bind_result (decode_fields (or_nothing e.raw_fields) []) λ fields. ok (entry_id, fields)

  pub decode_each : List (RawEntry B) → Result (List ClientEntry)
  decode_each [] = ok []
  decode_each (e ∷ es) =
      bind_result (decode_entry e)
        λ entry. bind_result (decode_each es) λ entries. ok (entry ∷ entries)

  pub xadd : Raw B → Result String
  xadd reply = to_str reply

  pub xrange : Option (List (RawEntry B)) → Result (List ClientEntry)
  xrange reply = decode_each (or_nothing reply)

  pub xreadgroup : Option (List (String × Option (List (RawEntry B)))) → Result (List ClientEntry)
  xreadgroup reply = decode_each (joined_streams (or_nothing reply))

  pub xautoclaim : RawClaim B → Result (String × List ClientEntry)
  xautoclaim no_claim = ok ("0-0", [])
  xautoclaim (cursor_only cursor) = bind_result (to_str cursor) λ c. ok (c, [])
  xautoclaim (claimed_with cursor es) =
      bind_result (to_str cursor)
        λ c. bind_result (decode_each (present (or_nothing es))) λ entries. ok (c, entries)
