-- ===== src/Outbox/Pass.antt =====
-- What a pass of the relay comes to, row by row (internal/infra/outbox).
use mathlib.Core.List.{append_assoc, append-nil}
use unbelievable_fish.Prelude.{
  ℕ, ◌+◌, ◌≡◌, refl, sym, ap, ◌∙◌, subst, ◌≢◌, List, [], ◌∷◌, ◌++◌, String, Option, none, some, All,
  AllPairs, All-mem, Memᴰ, arith, leb, if◌then◌else◌,
}
use unbelievable_fish.Prelude.Time.{Time}
use unbelievable_fish.Prelude.Text.{str_eq_iff}
use unbelievable_fish.Outbox.Table.{
  Message, Row, Returning, lock, lock_due, due_messages, marked, mark_row, map_rows, fail_row,
  record_failure,
}
use unbelievable_fish.Outbox.Relay.{
  Surroundings, Loop, failure, after_message, each_message, note_failure, run_once, max_attempts,
}
use unbelievable_fish.Outbox.Writes.{
  HasOtherId, noted, settled_by, map_rows-map, map_rows-same, mark_each, mark_published-map,
  mark_each_other, mark_row_other, mark_row_own, fail_row_own, fail_row-id, others_symm,
}

module _ {P : Type 0} (w : Surroundings P) where
  -- What the loop does to one row over a message, and over all of them.
  abbrev noted_for : Time → Message → Option String → Row → Row
  noted_for now m none r = r
  noted_for now m (some text) r =
      fail_row m.id (m.attempts + 1) text
        (if leb max_attempts (m.attempts + 1) then some now else none) r

  each_row : Time → List Message → Row → Row
  each_row now [] r = r
  each_row now (m ∷ ms) r = each_row now ms (noted_for now m (failure w m) r)

  abbrev with_accepted : Message → Option String → List String → List String
  with_accepted m none ids = m.id ∷ ids
  with_accepted m (some _) ids = ids

  noted_for-id :
      (now : Time) (m : Message) (f : Option String) (r : Row)
      → (noted_for now m f r).message.id ≡ r.message.id
  noted_for-id now m none r = refl
  noted_for-id now m (some text) r =
      fail_row-id m.id (m.attempts + 1) text
        (if leb max_attempts (m.attempts + 1) then some now else none) r

  each_row-id :
      (now : Time) (ms : List Message) (r : Row) → (each_row now ms r).message.id ≡ r.message.id
  unfolding each_row
  each_row-id now [] r = refl
  each_row-id now (m ∷ ms) r =
      each_row-id now ms (noted_for now m (failure w m) r) ∙ noted_for-id now m (failure w m) r

  accepted : List Message → List String
  accepted [] = []
  accepted (m ∷ ms) = with_accepted m (failure w m) (accepted ms)

  after-rows :
      (now : Time) (m : Message) (f : Option String) (l : Loop)
      → (after_message now m f l).rows ≡ map_rows (noted_for now m f) l.rows
  unfolding note_failure record_failure
  after-rows now m none l = sym (map_rows-same l.rows)
  after-rows now m (some text) l = refl

  after-published :
      (now : Time) (m : Message) (f : Option String) (l : Loop) (ids : List String)
      → (after_message now m f l).published ++ ids ≡ l.published ++ with_accepted m f ids
  after-published now m none l ids = append_assoc l.published (m.id ∷ []) ids
  after-published now m (some text) l ids = refl

  each_message-rows :
      (now : Time) (ms : List Message) (l : Loop)
      → (each_message w now ms l).rows ≡ map_rows (each_row now ms) l.rows
  unfolding each_message each_row
  each_message-rows now [] l = sym (map_rows-same l.rows)
  each_message-rows now (m ∷ ms) l =
      each_message-rows now ms (after_message now m (failure w m) l)
      ∙ (ap (map_rows (each_row now ms)) (after-rows now m (failure w m) l)
          ∙ map_rows-map (each_row now ms) (noted_for now m (failure w m)) l.rows)

  each_message-published :
      (now : Time) (ms : List Message) (l : Loop)
      → (each_message w now ms l).published ≡ l.published ++ accepted ms
  unfolding each_message accepted
  each_message-published now [] l = sym (append-nil l.published)
  each_message-published now (m ∷ ms) l =
      each_message-published now ms (after_message now m (failure w m) l)
      ∙ after-published now m (failure w m) l (accepted ms)

  -- What a pass over the messages does to one row.
  unfoldable pub pass_row : Time → List Message → Row → Row
  unfolding mark_each accepted each_row
  pass_row now ms r = mark_each now (accepted ms) (each_row now ms r)

  pub run_once-rows :
      (order : Returning) (limit : ℕ) (now : Time) (rows : List Row)
      → (run_once w order limit now rows).0
        ≡ map_rows
            (pass_row now (order.arrange (due_messages limit now rows)))
            (lock_due limit now rows)
  unfolding run_once pass_row
  run_once-rows order limit now rows =
      let ms = order.arrange (due_messages limit now rows) in
      let l : Loop = record {
        rows = lock_due limit now rows;
        published = [];
        first_error = none;
      } in
      mark_published-map now (each_message w now ms l).published (each_message w now ms l).rows
      ∙ (ap (λ ids. map_rows (mark_each now ids) (each_message w now ms l).rows)
            (each_message-published now ms l)
          ∙ (ap (map_rows (mark_each now (accepted ms))) (each_message-rows now ms l)
              ∙ map_rows-map (mark_each now (accepted ms)) (each_row now ms) l.rows))

  noted_for_other :
      (now : Time) (m : Message) (f : Option String) (r : Row)
      → HasOtherId m r.message
      → noted_for now m f r ≡ r
  unfolding fail_row
  noted_for_other now m none r h = refl
  noted_for_other now m (some text) r h = ground (arith, str_eq_iff r.message.id m.id)

  each_row_other :
      (now : Time) (ms : List Message) (r : Row)
      → All (λ m. HasOtherId m r.message) ms
      → each_row now ms r ≡ r
  unfolding each_row
  each_row_other now [] r h = refl
  each_row_other now (m ∷ ms) r h =
      ap (each_row now ms) (noted_for_other now m (failure w m) r h.0) ∙ each_row_other now ms r h.1

  with_accepted_other :
      (m : Message) (f : Option String) (ids : List String) (id : String)
      → m.id ≢ id
      → All (λ x. id ≢ x) ids
      → All (λ x. id ≢ x) (with_accepted m f ids)
  with_accepted_other m none ids id h k = ((λ e. h (sym e)), k)
  with_accepted_other m (some _) ids id h k = k

  accepted_other :
      (ms : List Message) (id : String) → All (λ m. m.id ≢ id) ms → All (λ x. id ≢ x) (accepted ms)
  unfolding accepted
  accepted_other [] id h = tt
  accepted_other (m ∷ ms) id h =
      with_accepted_other m (failure w m) (accepted ms) id h.0 (accepted_other ms id h.1)

  -- Both steps of a pass over one message, and the messages after it.
  step_row : Time → Message → List Message → Option String → Row → Row
  step_row now m ms f r =
      mark_each now (with_accepted m f (accepted ms)) (each_row now ms (noted_for now m f r))

  step_row_other :
      (now : Time) (m : Message) (ms : List Message) (f : Option String) (r : Row)
      → HasOtherId m r.message
      → step_row now m ms f r ≡ pass_row now ms r
  unfolding step_row pass_row mark_each mark_row fail_row
  step_row_other now m ms none r h =
      ap (mark_each now (accepted ms))
        (mark_row_other now m.id (each_row now ms r) (λ e. h (e ∙ each_row-id now ms r)))
  step_row_other now m ms (some text) r h =
      ap (λ x. mark_each now (accepted ms) (each_row now ms x))
        (noted_for_other now m (some text) r h)

  step_row_own :
      (now : Time) (ms : List Message) (f : Option String) (r : Row)
      → All (HasOtherId r.message) ms
      → step_row now r.message ms f (lock now r) ≡ settled_by now f r
  unfolding step_row mark_each
  step_row_own now ms none r h =
      let k = others_symm r.message ms h in
      ap (λ x. mark_each now (accepted ms) (mark_row now r.message.id x))
        (each_row_other now ms (lock now r) k)
      ∙ (ap (mark_each now (accepted ms)) (mark_row_own now (lock now r))
          ∙ mark_each_other now (accepted ms) (marked now (lock now r))
              (accepted_other ms r.message.id k))
  step_row_own now ms (some text) r h =
      let k = others_symm r.message ms h in
      let x = noted now text (lock now r) in
      ap (λ y. mark_each now (accepted ms) (each_row now ms y))
        (fail_row_own (r.message.attempts + 1) text
          (if leb max_attempts (r.message.attempts + 1) then some now else none) (lock now r))
      ∙ (ap (mark_each now (accepted ms)) (each_row_other now ms x k)
          ∙ mark_each_other now (accepted ms) x (accepted_other ms r.message.id k))

  -- A row of no message of the pass stays.
  pub pass_row_other :
      (now : Time) (ms : List Message) (r : Row)
      → All (λ m. HasOtherId m r.message) ms
      → pass_row now ms r ≡ r
  unfolding pass_row
  pass_row_other now ms r h =
      ap (mark_each now (accepted ms)) (each_row_other now ms r h)
      ∙ mark_each_other now (accepted ms) r (accepted_other ms r.message.id h)

  -- The row of a message of the pass is settled by the error of that message.
  pub pass_row_own :
      (now : Time) (ms : List Message) (r : Row)
      → AllPairs HasOtherId ms
      → Memᴰ r.message ms
      → pass_row now ms (lock now r) ≡ settled_by now (failure w r.message) r
  unfolding pass_row each_row accepted step_row
  pass_row_own now [] r h k = elim k [ ]
  pass_row_own now (m ∷ ms) r h (Memᴰ.head e) =
      subst
        (λ x.
          All (HasOtherId x) ms
          → step_row now x ms (failure w x) (lock now r) ≡ settled_by now (failure w r.message) r)
        e (step_row_own now ms (failure w r.message) r) h.0
  pass_row_own now (m ∷ ms) r h (Memᴰ.tail k) =
      step_row_other now m ms (failure w m) (lock now r) (All-mem (HasOtherId m) h.0 k)
      ∙ pass_row_own now ms r h.1 k
