-- ===== src/Outbox/Settling.antt =====
-- A pass of the relay against a table settled row by row (internal/infra/outbox).
use unbelievable_fish.Prelude.{
  AllPairs-perm, sym, if_both, ℕ, zero, suc, ◌≡◌, refl, sym, ap, ◌∙◌, subst, inl, inr, List, [],
  ◌∷◌, All, AllPairs, All-perm, All-mem, mem-perm, perm_symm, Memᴰ, Bool-cases, arith,
  if◌then◌else◌,
}
use unbelievable_fish.Prelude.Time.{Time}
use unbelievable_fish.Outbox.Table.{
  Message, Row, Returning, is_due, lock, lock_due, due_messages, map_rows,
}
use unbelievable_fish.Outbox.Relay.{Surroundings, failure, run_once}
use unbelievable_fish.Outbox.Writes.{HasOtherId, IsKeyed, settled_by, others_symm}
use unbelievable_fish.Outbox.Pass.{pass_row, pass_row_own, pass_row_other, run_once-rows}

-- What holds of the messages of some rows holds of those that are due.
All-due :
    (K : Message → Type 0) (limit : ℕ) (now : Time) (rows : List Row)
    → All (λ r. K r.message) rows
    → All K (due_messages limit now rows)
unfolding due_messages
All-due K zero now [] h = tt
All-due K (suc limit) now [] h = tt
All-due K zero now (r ∷ rows) h = tt
All-due K (suc limit) now (r ∷ rows) h =
    if_both (All K) (is_due now r) _ _ (λ _. (h.0, All-due K limit now rows h.1))
      (λ _. All-due K (suc limit) now rows h.1)

AllPairs-due :
    (limit : ℕ) (now : Time) (rows : List Row)
    → IsKeyed rows
    → AllPairs HasOtherId (due_messages limit now rows)
unfolding due_messages
AllPairs-due zero now [] h = tt
AllPairs-due (suc limit) now [] h = tt
AllPairs-due zero now (r ∷ rows) h = tt
AllPairs-due (suc limit) now (r ∷ rows) h =
    if_both (AllPairs HasOtherId) (is_due now r) _ _
      (λ _. (All-due (HasOtherId r.message) limit now rows h.0, AllPairs-due limit now rows h.1))
      (λ _. AllPairs-due (suc limit) now rows h.1)

map_rows_fixed :
    (f : Row → Row) (rows : List Row) → ((r : Row) → Memᴰ r rows → f r ≡ r) → map_rows f rows ≡ rows
map_rows_fixed f [] h = refl
map_rows_fixed f (r ∷ rows) h =
    let first = h r (Memᴰ.head refl) in
    let rest = map_rows_fixed f rows (λ x k. h x (Memᴰ.tail k)) in cc

module _ {P : Type 0} (w : Surroundings P) where
  -- The table with the first `limit` rows that are due settled.
  unfoldable pub settle_due : ℕ → Time → List Row → List Row
  settle_due limit now [] = []
  settle_due zero now (r ∷ rows) = r ∷ rows
  settle_due (suc limit) now (r ∷ rows) =
      let taken = settled_by now (failure w r.message) r ∷ settle_due limit now rows in
      let passed = r ∷ settle_due (suc limit) now rows in if is_due now r then taken else passed

  settle_by_rows :
      (f : Row → Row) (limit : ℕ) (now : Time) (rows : List Row)
      → IsKeyed rows
      → ((r : Row)
          → Memᴰ r.message (due_messages limit now rows)
          → f (lock now r) ≡ settled_by now (failure w r.message) r)
      → ((r : Row)
          → Memᴰ r rows
          → All (λ m. HasOtherId m r.message) (due_messages limit now rows)
          → f r ≡ r)
      → map_rows f (lock_due limit now rows) ≡ settle_due limit now rows
  unfolding lock_due settle_due due_messages
  settle_by_rows f zero now [] h own other = refl
  settle_by_rows f (suc limit) now [] h own other = refl
  settle_by_rows f zero now (r ∷ rows) h own other =
      map_rows_fixed f (r ∷ rows) (λ x k. other x k tt)
  settle_by_rows f (suc limit) now (r ∷ rows) h own other = elim (Bool-cases (is_due now r)) [
    | inl e ↦
        let due =
          ap
            (λ b.
              if b
              then r.message ∷ due_messages limit now rows
              else due_messages (suc limit) now rows)
            e in
        let rest =
          settle_by_rows f limit now rows h.1
            (λ x k. own x (subst (λ ms. Memᴰ x.message ms) (sym due) (Memᴰ.tail k)))
            (λ x k a. other x (Memᴰ.tail k) (
              subst (All (λ m. HasOtherId m x.message)) (sym due)
                (All-mem (λ y. HasOtherId r.message y.message) h.0 k, a))) in
        let first = own r (subst (λ ms. Memᴰ r.message ms) (sym due) (Memᴰ.head refl)) in
        ground arith
    | inr e ↦
        let due =
          ap
            (λ b.
              if b
              then r.message ∷ due_messages limit now rows
              else due_messages (suc limit) now rows)
            e in
        let rest =
          settle_by_rows f (suc limit) now rows h.1
            (λ x k. own x (subst (λ ms. Memᴰ x.message ms) (sym due) k))
            (λ x k a.
              other x (Memᴰ.tail k) (subst (All (λ m. HasOtherId m x.message)) (sym due) a)) in
        let first = other r (Memᴰ.head refl) (
          subst (All (λ m. HasOtherId m r.message)) (sym due)
            (others_symm r.message _ (All-due (HasOtherId r.message) (suc limit) now rows h.0))) in
        ground arith
  ]

  -- One pass of the relay leaves the table as if the first `limit` due rows were settled one at a time,
  -- in the order of the table: a message that was accepted is published, one that failed has one
  -- attempt more, its error, and at the fifth attempt the time of its failure, and no other row
  -- changes. This holds for every order in which the query returns the messages, where the ids of
  -- the table differ.
  pub run_once_settles :
      (order : Returning) (limit : ℕ) (now : Time) (rows : List Row)
      → IsKeyed rows
      → (run_once w order limit now rows).0 ≡ settle_due limit now rows
  run_once_settles order limit now rows h =
      let due = due_messages limit now rows in
      let p = order.arrange-perm due in
      let pairs =
        AllPairs-perm HasOtherId (λ _ _ k e. k (sym e)) (perm_symm p)
          (AllPairs-due limit now rows h) in
      run_once-rows w order limit now rows
      ∙ settle_by_rows (pass_row w now (order.arrange due)) limit now rows h
          (λ r k. pass_row_own w now (order.arrange due) r pairs (mem-perm (perm_symm p) k))
          (λ r _ k.
            pass_row_other w now (order.arrange due) r
              (All-perm (λ m. HasOtherId m r.message) (perm_symm p) k))
