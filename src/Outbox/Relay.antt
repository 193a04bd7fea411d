-- ===== src/Outbox/Relay.antt =====
-- One pass of the relay: `RunOnce` of internal/infra/outbox/relay.go.
use Prim.Native.String
use unbelievable_fish.Prelude.{
  ℕ, ◌+◌, List, [], ◌∷◌, ◌++◌, String, Option, none, some, Result, ok, err, leb, if◌then◌else◌,
}
use unbelievable_fish.Prelude.Time.{Time}
use unbelievable_fish.Prelude.Text.{is_empty}
use unbelievable_fish.Outbox.Table.{
  Message, Row, Returning, lock_due, due_messages, mark_published, record_failure,
}

-- `Envelope` of internal/shared/events; the metadata are the entries of the map.
pub record Envelope (P : Type 0) : Type 0 where
  pub event_type : String
  pub payload : P
  pub occurred_at : Time
  pub meta : List (String × String)

unfoldable pub add_meta : String → String → List (String × String) → List (String × String)
unfolding is_empty
add_meta key value rest = if is_empty value then rest else (key, value) ∷ rest

unfoldable pub meta_from_message : Message → List (String × String)
unfolding add_meta
meta_from_message m =
    ("source_context", m.source_context)
    ∷ add_meta "correlation_id" m.correlation_id (
        add_meta "causation_id" m.causation_id
          (add_meta "company_id" m.company_id (add_meta "user_id" m.user_id [])))

abbrev pub max_attempts : ℕ
max_attempts = 5

-- `recordFailure`
unfoldable pub note_failure : Time → Message → String → List Row → List Row
unfolding record_failure
note_failure now m text rows =
    let attempts = m.attempts + 1 in
    record_failure m.id attempts text (if leb max_attempts attempts then some now else none) rows

abbrev pub first_of : Option String → String → Option String
first_of none text = some text
first_of (some old) text = some old

-- What the pass works with: the decoders by event type, and the answer of the bus to the envelope of
-- each message in this pass, `none` where it is accepted. A message is published once in a pass.
pub record Surroundings (P : Type 0) : Type 0 where
  pub decoder : String → Option (List ℕ → Result String P)
  pub bus : Message → Envelope P → Option String

-- The variables of the loop.
pub record Loop : Type 0 where
  pub rows : List Row
  pub published : List String
  pub first_error : Option String

-- What the loop does with a message and its error.
abbrev pub after_message : Time → Message → Option String → Loop → Loop
after_message now m none l = record l { published = l.published ++ m.id ∷ [] }
after_message now m (some text) l = record l {
  rows = note_failure now m text l.rows;
  first_error = first_of l.first_error text;
}

module _ {P : Type 0} (w : Surroundings P) where
  unfoldable pub envelope_of : Message → P → Envelope P
  unfolding meta_from_message
  envelope_of m payload = record {
    event_type = m.event_type;
    payload = payload;
    occurred_at = m.occurred_at;
    meta = meta_from_message m;
  }

  abbrev publish_decoded : Message → Result String P → Option String
  publish_decoded m (err text) = some text
  publish_decoded m (ok payload) = w.bus m (envelope_of m payload)

  abbrev with_decoder : Message → Option (List ℕ → Result String P) → Option String
  with_decoder m none = some (String.◌++◌ "missing decoder for event type: " m.event_type)
  with_decoder m (some decode) = publish_decoded m (decode m.payload)

  -- The error of a message in the body of the loop, if it has one.
  unfoldable pub failure : Message → Option String
  failure m = with_decoder m (w.decoder m.event_type)

  unfoldable pub each_message : Time → List Message → Loop → Loop
  unfolding failure
  each_message now [] l = l
  each_message now (m ∷ ms) l = each_message now ms (after_message now m (failure m) l)

  -- `RunOnce`: the table and the error that it returns.
  unfoldable pub run_once : Returning → ℕ → Time → List Row → List Row × Option String
  unfolding lock_due due_messages each_message mark_published
  run_once order limit now rows =
      let l =
        each_message now (order.arrange (due_messages limit now rows))
          (record { rows = lock_due limit now rows; published = []; first_error = none }) in
      (mark_published now l.published l.rows, l.first_error)
