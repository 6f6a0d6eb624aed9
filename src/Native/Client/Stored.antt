-- ===== src/Native/Client/Stored.antt =====
-- An entry comes back through the client as it was added.
use event_driven_trading_led.Base.{
  String, ◌≡◌, refl, sym, ap, ◌∙◌, false, Option, none, some, List, [], ◌∷◌, ◌++◌, map, All, ◌==◌,
  append_assoc, append-nil,
}
use event_driven_trading_led.Base.Exec.{Result, ok}
use event_driven_trading_led.Base.Dict.{Dict, insert}
use event_driven_trading_led.Base.Keys.{HasDistinctKeys}
use event_driven_trading_led.Native.Client.{
  Raw, RawEntry, ClientEntry, clean, to_str, to_value, decode_fields, decode_entry, decode_each,
  claimed_with, present, xrange, xreadgroup, xautoclaim,
}

module _ {V : Type 0} where
  -- no key of `d` is a key of `new`
  abbrev IsApart : Dict V → Dict V → Type 0
  IsApart d new = All (λ item. All (λ other. (item.0 == other.0) ≡ false) new) d

  insert-new :
      (k : String) (v : V) (d : Dict V)
      → All (λ item. (item.0 == k) ≡ false) d
      → insert k v d ≡ d ++ (k, v) ∷ []
  unfolding insert
  insert-new k v [] h = refl
  insert-new k v ((j, w) ∷ d) h = rw h.0 (ap (◌∷◌ (j, w)) (insert-new k v d h.1))

  All-head :
      (k : String) (v : V) (d new : Dict V)
      → IsApart d ((k, v) ∷ new)
      → All (λ item. (item.0 == k) ≡ false) d
  All-head k v [] new h = tt
  All-head k v (x ∷ d) new h = (h.0.0, All-head k v d new h.1)

  IsApart-append :
      (k : String) (v : V) (d new : Dict V)
      → IsApart d ((k, v) ∷ new)
      → All (λ item. (k == item.0) ≡ false) new
      → IsApart (d ++ (k, v) ∷ []) new
  IsApart-append k v [] new h other = (other, tt)
  IsApart-append k v (x ∷ d) new h other = (h.0.1, IsApart-append k v d new h.1 other)

-- what XAUTOCLAIM may return for a pending entry
pub data ClaimItem : Type 0 where
  intact : ClientEntry → ClaimItem
  deleted : String → ClaimItem
  nothing : ClaimItem

-- the fields of an entry as they come back: "" where a None was added
abbrev pub returned_fields : Dict (Option String) → Dict (Option String)
returned_fields [] = []
returned_fields ((k, none) ∷ d) = (k, some "") ∷ returned_fields d
returned_fields ((k, some v) ∷ d) = (k, some v) ∷ returned_fields d

abbrev pub returned : ClientEntry → ClientEntry
returned e = (e.0, returned_fields e.1)

abbrev pub intact_of : List ClaimItem → List ClientEntry
intact_of [] = []
intact_of (intact e ∷ cs) = e ∷ intact_of cs
intact_of (deleted _ ∷ cs) = intact_of cs
intact_of (nothing ∷ cs) = intact_of cs

module _ {B : Type 0} (decode : B → Result String) (write : String → Raw B) where
  -- a dict of texts in a reply, where each text is written as redis-py writes it
  abbrev pub raw_items : Dict String → List (Raw B × Option (Raw B))
  raw_items = map (λ item. (write item.0, some (write item.1)))

  abbrev pub as_stored : Dict String → Dict (Option String)
  as_stored = map (λ item. (item.0, some item.1))

  decode_fields_lem :
      (d : Dict String) (seen : Dict (Option String))
      → ((s : String) → to_str decode (write s) ≡ ok s)
      → IsApart seen (as_stored d)
      → HasDistinctKeys (as_stored d)
      → decode_fields decode (raw_items d) seen ≡ ok (seen ++ as_stored d)
  unfolding decode_fields to_value
  decode_fields_lem [] seen reads apart distinct = ap ok (sym (append-nil seen))
  decode_fields_lem ((k, v) ∷ d) seen reads apart distinct =
      let new = All-head k (some v) seen (as_stored d) apart in
      rw (reads v, reads k, insert-new k (some v) seen new)
        (decode_fields_lem d (seen ++ (k, some v) ∷ []) reads
            (IsApart-append k (some v) seen (as_stored d) apart distinct.0) distinct.1
          ∙ ap ok (append_assoc seen ((k, some v) ∷ []) (as_stored d)))

  All-keys :
      (k : String) (d : Dict (Option String))
      → All (λ item. (k == item.0) ≡ false) d
      → All (λ item. (k == item.0) ≡ false) (as_stored (clean d))
  All-keys k [] h = tt
  All-keys k (x ∷ d) h = (h.0, All-keys k d h.1)

  distinct_stored :
      (d : Dict (Option String)) → HasDistinctKeys d → HasDistinctKeys (as_stored (clean d))
  distinct_stored [] h = tt
  distinct_stored ((k, v) ∷ d) h = (All-keys k d h.0, distinct_stored d h.1)

  -- an entry that was added, in a reply
  abbrev pub stored_entry : ClientEntry → RawEntry B
  stored_entry e = record { raw_id = write e.0; raw_fields = some (raw_items (clean e.1)) }

  as_stored-clean : (d : Dict (Option String)) → as_stored (clean d) ≡ returned_fields d
  as_stored-clean [] = refl
  as_stored-clean ((k, none) ∷ d) = ap (◌∷◌ (k, some "")) (as_stored-clean d)
  as_stored-clean ((k, some v) ∷ d) = ap (◌∷◌ (k, some v)) (as_stored-clean d)

  pub decode_entry-stored_entry :
      (e : ClientEntry)
      → ((s : String) → to_str decode (write s) ≡ ok s)
      → HasDistinctKeys e.1
      → decode_entry decode (stored_entry e) ≡ ok (returned e)
  unfolding decode_entry
  decode_entry-stored_entry e reads distinct =
      let fields = decode_fields_lem (clean e.1) [] reads tt (distinct_stored e.1 distinct) in
      rw (reads e.0, fields, as_stored-clean e.1)

  -- Entries with distinct field names that were added by `xadd`, whose texts the reply has in a form
  -- that reads back, are returned in order with their ids and fields, in which "" stands for None.
  pub decode_each-stored_entry :
      (es : List ClientEntry)
      → ((s : String) → to_str decode (write s) ≡ ok s)
      → All (λ e. HasDistinctKeys e.1) es
      → decode_each decode (map stored_entry es) ≡ ok (map returned es)
  unfolding decode_each
  decode_each-stored_entry [] reads distinct = refl
  decode_each-stored_entry (e ∷ es) reads distinct =
      rw
        (decode_entry-stored_entry e reads distinct.0, decode_each-stored_entry es reads distinct.1)

  abbrev pub raw_claimed : ClaimItem → Option (RawEntry B)
  raw_claimed (intact e) = some (stored_entry e)
  raw_claimed (deleted i) = some (record { raw_id = write i; raw_fields = none })
  raw_claimed nothing = none

  present-raw_claimed :
      (cs : List ClaimItem) → present (map raw_claimed cs) ≡ map stored_entry (intact_of cs)
  unfolding present
  present-raw_claimed [] = refl
  present-raw_claimed (intact e ∷ cs) = ap (◌∷◌ (stored_entry e)) (present-raw_claimed cs)
  present-raw_claimed (deleted i ∷ cs) = present-raw_claimed cs
  present-raw_claimed (nothing ∷ cs) = present-raw_claimed cs

  -- Entries with distinct field names that were added by `xadd`, in replies whose texts read back as
  -- they were written, are returned in order with their ids and fields, with "" in place of a None:
  -- by XRANGE, by XREADGROUP of one stream, and by XAUTOCLAIM, which leaves out nil and deleted ones.
  pub reads-stored_entry :
      (es : List ClientEntry) (cs : List ClaimItem) (stream cursor : String)
      → ((s : String) → to_str decode (write s) ≡ ok s)
      → All (λ e. HasDistinctKeys e.1) es
      → All (λ e. HasDistinctKeys e.1) (intact_of cs)
      → (xrange decode (some (map stored_entry es)) ≡ ok (map returned es))
        × (xreadgroup decode (some ((stream, some (map stored_entry es)) ∷ []))
            ≡ ok (map returned es))
        × (xautoclaim decode (claimed_with (write cursor) (some (map raw_claimed cs)))
            ≡ ok (cursor, map returned (intact_of cs)))
  unfolding xrange xreadgroup xautoclaim
  reads-stored_entry es cs stream cursor reads distinct distinct' =
      let all = decode_each-stored_entry es reads distinct in
      let claimed = decode_each-stored_entry (intact_of cs) reads distinct' in
      (
        all,
        rw (append-nil (map stored_entry es)) all,
        rw (reads cursor, present-raw_claimed cs, claimed) refl,
      )
