-- ===== src/Pipeline/Gateway/Once.antt =====
-- The gateway pushes the first message of each id, and no other.
use event_driven_trading_led.Base.{
  String, ◌≡◌, refl, ap, false, arith, ◌==◌, All, List, [], ◌∷◌, ◌++◌, map, append-nil,
  append_assoc, Bool-cases, inl, inr, if◌then◌else◌,
}
use event_driven_trading_led.Outbox.Consumer.{contains}
use event_driven_trading_led.Pipeline.Market.{Message}
use event_driven_trading_led.Pipeline.Gateway.{Gateway, label, push}

module _ {F : Type 0} where
  -- the messages whose id is not among the seen ones nor earlier
  pub first_messages : List String → List (Message F) → List (Message F)
  first_messages seen [] = []
  first_messages seen (e ∷ es) =
      let new = e ∷ first_messages (seen ++ e.event_id ∷ []) es in
      let old = first_messages seen es in if contains e.event_id seen then old else new

  unfoldable pub push_all : List (Message F) → Gateway → Gateway
  push_all [] g = g
  push_all (e ∷ es) g = push_all es (push e g)

  -- Over any messages, repeated ones included, the clients get the type and the label of the first
  -- message of each unseen id, in order and once, and the ids of these are the ones that become seen.
  pub push_all_lem :
      (es : List (Message F)) (g : Gateway)
      → let new = first_messages g.seen es in
        push_all es g ≡ record {
          seen = g.seen ++ map (λ e. e.event_id) new;
          pushed = g.pushed ++ map (λ e. (e.event_type, label e.content)) new;
        }
  unfolding push_all first_messages push
  push_all_lem [] g = cc (append-nil g.seen, append-nil g.pushed)
  push_all_lem (e ∷ es) g = elim (Bool-cases (contains e.event_id g.seen)) [
    | inl old ↦ rw old (push_all_lem es g)
    | inr new ↦
        let item : String × String = (e.event_type, label e.content) in
        let next : Gateway = record {
          seen = g.seen ++ e.event_id ∷ [];
          pushed = g.pushed ++ item ∷ [];
        } in
        let rest = first_messages next.seen es in
        rw new (
          cc (
            push_all_lem es next,
            append_assoc g.seen (e.event_id ∷ []) (map (λ x. x.event_id) rest),
            append_assoc g.pushed (item ∷ []) (map (λ x. (x.event_type, label x.content)) rest),
          ))
  ]

-- no id stands twice
abbrev pub AreDistinct : List String → Type 0
AreDistinct [] = Unit
AreDistinct (x ∷ xs) = All (λ y. (x == y) ≡ false) xs × AreDistinct xs

contains-snoc :
    (k j : String) (js : List String)
    → contains k js ≡ false
    → (j == k) ≡ false
    → contains k (js ++ j ∷ []) ≡ false
contains-snoc k j [] old new = rw new refl
contains-snoc k j (i ∷ js) old new = ground (arith, contains-snoc k j js)

module _ {F : Type 0} where
  -- the messages whose ids were not pushed
  AreNew : List String → List (Message F) → Type 0
  AreNew seen = All (λ m. contains m.event_id seen ≡ false)

  AreNew-snoc :
      (id : String) (seen : List String) (ms : List (Message F))
      → All (λ y. (id == y) ≡ false) (map (λ m. m.event_id) ms)
      → AreNew seen ms
      → AreNew (seen ++ id ∷ []) ms
  unfolding AreNew
  AreNew-snoc id seen [] other new = tt
  AreNew-snoc id seen (m ∷ ms) other new =
      (contains-snoc m.event_id id seen new.0 other.0, AreNew-snoc id seen ms other.1 new.1)

  first_messages_distinct :
      (seen : List String) (ms : List (Message F))
      → AreDistinct (map (λ m. m.event_id) ms)
      → AreNew seen ms
      → first_messages seen ms ≡ ms
  unfolding first_messages AreNew
  first_messages_distinct seen [] k new = refl
  first_messages_distinct seen (m ∷ ms) k new =
      let later = AreNew-snoc m.event_id seen ms k.0 new.1 in
      rw new.0 (ap (◌∷◌ m) (first_messages_distinct (seen ++ m.event_id ∷ []) ms k.1 later))

  AreNew-nil : (ms : List (Message F)) → AreNew [] ms
  unfolding AreNew
  AreNew-nil [] = tt
  AreNew-nil (m ∷ ms) = (refl, AreNew-nil ms)

  -- a gateway that starts pushes each of the messages, where no id stands twice
  pub push_all_distinct :
      (ms : List (Message F))
      → AreDistinct (map (λ m. m.event_id) ms)
      → (push_all ms (record { seen = []; pushed = [] })).pushed
        ≡ map (λ e. (e.event_type, label e.content)) ms
  push_all_distinct ms k =
      rw
        (
          push_all_lem ms (record { seen = []; pushed = [] }),
          first_messages_distinct [] ms k (AreNew-nil ms),
        )
        refl
