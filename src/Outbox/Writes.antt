-- ===== src/Outbox/Writes.antt =====
-- What the queries of a pass of the relay write into one row (internal/infra/outbox).
use unbelievable_fish.Prelude.{
  ℕ, ◌+◌, ◌≡◌, refl, sym, ap, ◌∙◌, ◌≢◌, List, [], ◌∷◌, String, Option, none, some, All, arith, leb,
  if◌then◌else◌,
}
use unbelievable_fish.Prelude.Time.{Time}
use unbelievable_fish.Prelude.Text.{str_eq_iff, str_eq_refl}
use unbelievable_fish.Outbox.Table.{
  Message, Row, lock, marked, mark_row, map_rows, mark_published, failed, fail_row,
}
use unbelievable_fish.Outbox.Relay.{max_attempts}

abbrev pub HasOtherId : Message → Message → Type 0
HasOtherId a b = a.id ≢ b.id

-- The ids of the table are its primary key.
abbrev pub IsKeyed : List Row → Type 0
IsKeyed [] = Unit {0}
IsKeyed (r ∷ rows) = All (λ x. HasOtherId r.message x.message) rows × IsKeyed rows

-- A failure noted in a row.
abbrev pub noted : Time → String → Row → Row
noted now text r =
    failed (r.message.attempts + 1) text
      (if leb max_attempts (r.message.attempts + 1) then some now else none) r

-- The row of a message that is taken, by its error.
abbrev pub settled_by : Time → Option String → Row → Row
settled_by now none r = marked now (lock now r)
settled_by now (some text) r = noted now text (lock now r)

pub map_rows-map :
    (f g : Row → Row) (rows : List Row)
    → map_rows f (map_rows g rows) ≡ map_rows (λ r. f (g r)) rows
map_rows-map f g [] = refl
map_rows-map f g (r ∷ rows) = ap (λ x. f (g r) ∷ x) (map_rows-map f g rows)

pub map_rows-same : (rows : List Row) → map_rows (λ r. r) rows ≡ rows
map_rows-same [] = refl
map_rows-same (r ∷ rows) = ap (λ x. r ∷ x) (map_rows-same rows)

-- What `MarkPublished` does to one row.
unfoldable pub mark_each : Time → List String → Row → Row
mark_each now [] r = r
mark_each now (id ∷ ids) r = mark_each now ids (mark_row now id r)

pub mark_published-map :
    (now : Time) (ids : List String) (rows : List Row)
    → mark_published now ids rows ≡ map_rows (mark_each now ids) rows
unfolding mark_published mark_each
mark_published-map now [] rows = sym (map_rows-same rows)
mark_published-map now (id ∷ ids) rows =
    mark_published-map now ids (map_rows (mark_row now id) rows)
    ∙ map_rows-map (mark_each now ids) (mark_row now id) rows

pub mark_each_other :
    (now : Time) (ids : List String) (r : Row)
    → All (λ id. r.message.id ≢ id) ids
    → mark_each now ids r ≡ r
unfolding mark_each mark_row
mark_each_other now [] r h = refl
mark_each_other now (id ∷ ids) r h =
    ground (arith, str_eq_iff r.message.id id, mark_each_other now ids r)

pub mark_row_other :
    (now : Time) (id : String) (r : Row) → id ≢ r.message.id → mark_row now id r ≡ r
unfolding mark_row
mark_row_other now id r h = ground (arith, str_eq_iff r.message.id id)

pub mark_row_own : (now : Time) (r : Row) → mark_row now r.message.id r ≡ marked now r
unfolding mark_row
mark_row_own now r = ground (arith, str_eq_refl r.message.id)

pub fail_row_own :
    (attempts : ℕ) (text : String) (at : Option Time) (r : Row)
    → fail_row r.message.id attempts text at r ≡ failed attempts text at r
unfolding fail_row
fail_row_own attempts text at r = ground (arith, str_eq_refl r.message.id)

pub fail_row-id :
    (id : String) (attempts : ℕ) (text : String) (at : Option Time) (r : Row)
    → (fail_row id attempts text at r).message.id ≡ r.message.id
unfolding fail_row
fail_row-id id attempts text at r = ground arith

pub others_symm :
    (m : Message) (ms : List Message) → All (HasOtherId m) ms → All (λ x. HasOtherId x m) ms
others_symm m [] h = tt
others_symm m (x ∷ ms) h = ((λ e. h.0 (sym e)), others_symm m ms h.1)
