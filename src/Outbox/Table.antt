-- ===== src/Outbox/Table.antt =====
-- The outbox table as the queries of internal/infra/outbox/postgres/repository.go see it, in the order
-- of `created_at, id`, and the message of relay.go.
use unbelievable_fish.Prelude.{
  ℕ, zero, suc, ◌-◌, Bool, true, false, ◌&&◌, List, [], ◌∷◌, String, Option, none, some, Permᴰ,
  if◌then◌else◌,
}
use unbelievable_fish.Prelude.Time.{Time, before, minute}
use unbelievable_fish.Prelude.Text.{str_eq}

-- A payload is its bytes.
pub record Message : Type 0 where
  pub id : String
  pub event_type : String
  pub source_context : String
  pub payload : List ℕ
  pub occurred_at : Time
  pub attempts : ℕ
  pub correlation_id : String
  pub causation_id : String
  pub company_id : String
  pub user_id : String

pub record Row : Type 0 where
  pub message : Message
  pub last_error : Option String
  pub published_at : Option Time
  pub failed_at : Option Time
  pub locked_at : Option Time

abbrev pub is_null : Option Time → Bool
is_null none = true
is_null (some _) = false

-- `locked_at IS NULL OR locked_at < $2`
abbrev pub is_free : Time → Option Time → Bool
is_free cutoff none = true
is_free cutoff (some t) = before t cutoff

-- The WHERE clause of `ListUnpublished`. The cutoff is a minute before the lock time.
unfoldable pub is_due : Time → Row → Bool
is_due now r = is_null r.published_at && is_null r.failed_at && is_free (now - minute) r.locked_at

abbrev pub lock : Time → Row → Row
lock now r = record r { locked_at = some now }

-- The rows after `ListUnpublished`, which locks the first `limit` rows that are due.
unfoldable pub lock_due : ℕ → Time → List Row → List Row
unfolding is_due
lock_due limit now [] = []
lock_due zero now (r ∷ rows) = r ∷ rows
lock_due (suc limit) now (r ∷ rows) =
    let taken = lock now r ∷ lock_due limit now rows in
    let passed = r ∷ lock_due (suc limit) now rows in if is_due now r then taken else passed

-- The messages of those rows.
unfoldable pub due_messages : ℕ → Time → List Row → List Message
unfolding is_due
due_messages limit now [] = []
due_messages zero now (r ∷ rows) = []
due_messages (suc limit) now (r ∷ rows) =
    let taken = r.message ∷ due_messages limit now rows in
    let passed = due_messages (suc limit) now rows in if is_due now r then taken else passed

-- `UPDATE ... RETURNING` gives the updated rows in an order that is left open: the ORDER BY of the
-- subquery says which rows are taken.
pub record Returning : Type 0 where
  pub arrange : List Message → List Message
  pub arrange-perm : (ms : List Message) → Permᴰ (arrange ms) ms

abbrev pub marked : Time → Row → Row
marked now r = record r { published_at = some now }

unfoldable pub mark_row : Time → String → Row → Row
unfolding str_eq
mark_row now id r = if str_eq r.message.id id then marked now r else r

abbrev pub map_rows : (Row → Row) → List Row → List Row
map_rows f [] = []
map_rows f (r ∷ rows) = f r ∷ map_rows f rows

-- `MarkPublished`
unfoldable pub mark_published : Time → List String → List Row → List Row
mark_published now [] rows = rows
mark_published now (id ∷ ids) rows = mark_published now ids (map_rows (mark_row now id) rows)

abbrev pub failed : ℕ → String → Option Time → Row → Row
failed attempts text failed_at r = record r {
  message = record r.message { attempts = attempts };
  last_error = some text;
  failed_at = failed_at;
}

unfoldable pub fail_row : String → ℕ → String → Option Time → Row → Row
unfolding str_eq
fail_row id attempts text failed_at r =
    if str_eq r.message.id id then failed attempts text failed_at r else r

-- `RecordFailure`
unfoldable pub record_failure : String → ℕ → String → Option Time → List Row → List Row
unfolding fail_row
record_failure id attempts text failed_at rows = map_rows (fail_row id attempts text failed_at) rows
