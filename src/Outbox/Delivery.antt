-- ===== src/Outbox/Delivery.antt =====
-- Passes of the relay one after the other (internal/infra/outbox): every message comes to an end.
use unbelievable_fish.Prelude.{
  ℕ, zero, suc, ◌+◌, ◌-◌, ◌≤◌, ◌<◌, ◌≡◌, refl, sym, ap, ◌∙◌, subst, ◌⊎◌, inl, inr, Bool, true,
  false, ◌||◌, not, List, [], ◌∷◌, String, Option, none, some, All, length, Bool-cases, arith,
  if◌then◌else◌,
}
use unbelievable_fish.Prelude.Time.{Time, minute}
use unbelievable_fish.Outbox.Table.{Row, Returning, is_null, is_free, is_due, map_rows}
use unbelievable_fish.Outbox.Relay.{Surroundings, failure, run_once, max_attempts}
use unbelievable_fish.Outbox.Writes.{HasOtherId, IsKeyed, settled_by}
use unbelievable_fish.Outbox.Settling.{settle_due, run_once_settles}

-- A message that is published, or failed for good.
abbrev pub is_over : Row → Bool
is_over r = not (is_null r.published_at) || not (is_null r.failed_at)

-- Nothing holds the row at this time.
abbrev pub is_unlocked : Time → Row → Bool
is_unlocked now r = is_free (now - minute) r.locked_at

-- A lock of that time at most.
abbrev pub LockedBy : Time → Option Time → Type 0
LockedBy t none = Unit {0}
LockedBy t (some at) = at ≤ t

-- A row that is over, or that has `n` attempts at least, `n` being no last one, and is not locked
-- after `t`.
abbrev IsMoved : ℕ → Time → Row → Type 0
IsMoved n t r =
    (is_over r ≡ true) ⊎ ((n ≤ r.message.attempts) × (n < max_attempts) × LockedBy t r.locked_at)

settled_moves :
    (n : ℕ) (now : Time) (f : Option String) (r : Row)
    → n ≤ r.message.attempts
    → IsMoved (n + 1) now (settled_by now f r)
settled_moves n now none r h = inl refl
settled_moves n now (some text) r h = ground arith

over_skipped : (now : Time) (r : Row) → is_over r ≡ true → is_due now r ≡ false
unfolding is_due
over_skipped now r h = ground arith

free_after :
    (t now : Time) (at : Option Time)
    → t + minute < now
    → LockedBy t at
    → is_free (now - minute) at ≡ true
free_after t now none d k = refl
free_after t now (some at) d k = ground arith

live_due :
    (t now : Time) (r : Row)
    → t + minute < now
    → is_over r ≡ false
    → LockedBy t r.locked_at
    → is_due now r ≡ true
unfolding is_due
live_due t now r d h k = let free = free_after t now r.locked_at d k in ground arith

settled_by-id :
    (now : Time) (f : Option String) (r : Row) → (settled_by now f r).message.id ≡ r.message.id
settled_by-id now none r = refl
settled_by-id now (some text) r = refl

map_rows-length : (f : Row → Row) (rows : List Row) → length (map_rows f rows) ≡ length rows
map_rows-length f [] = refl
map_rows-length f (r ∷ rows) = ap suc (map_rows-length f rows)

All-map : (K L : Row → Type 0) (rows : List Row) → ((r : Row) → K r → L r) → All K rows → All L rows
All-map K L [] g h = tt
All-map K L (r ∷ rows) g h = (g r h.0, All-map K L rows g h.1)

All-map_rows :
    (K L : Row → Type 0) (f : Row → Row) (rows : List Row)
    → ((r : Row) → K r → L (f r))
    → All K rows
    → All L (map_rows f rows)
All-map_rows K L f [] g h = tt
All-map_rows K L f (r ∷ rows) g h = (g r h.0, All-map_rows K L f rows g h.1)

map_rows-IsKeyed :
    (f : Row → Row) (rows : List Row)
    → ((r : Row) → (f r).message.id ≡ r.message.id)
    → IsKeyed rows
    → IsKeyed (map_rows f rows)
map_rows-IsKeyed f [] e h = tt
map_rows-IsKeyed f (r ∷ rows) e h = (
  All-map_rows (λ x. HasOtherId r.message x.message) (λ x. HasOtherId (f r).message x.message) f
      rows (λ x k q. k (sym (e r) ∙ (q ∙ e x))) h.0,
  map_rows-IsKeyed f rows e h.1,
)

moved_over : (u : Time) (n : ℕ) (r : Row) → max_attempts ≤ n → IsMoved n u r → is_over r ≡ true
moved_over u n r h (inl e) = e
moved_over u n r h (inr (_, k, _)) = ground arith

-- The passes, each with its time, its surroundings and the order that the query returns.
pub record Pass (P : Type 0) : Type 0 where
  pub now : Time
  pub around : Surroundings P
  pub order : Returning

module _ {P : Type 0} where
  unfoldable pub run_passes : ℕ → List (Pass P) → List Row → List Row
  run_passes limit [] rows = rows
  run_passes limit (p ∷ ps) rows =
      run_passes limit ps (run_once p.around p.order limit p.now rows).0

  -- Each pass comes more than a minute after the one before it.
  abbrev pub IsSpaced : Time → List (Pass P) → Type 0
  IsSpaced t [] = Unit {0}
  IsSpaced t (p ∷ ps) = (t + minute < p.now) × IsSpaced p.now ps

  -- What a pass that takes every due row does to one of them.
  visit : Surroundings P → Time → Row → Row
  visit w now r =
      let taken = settled_by now (failure w r.message) r in if is_due now r then taken else r

  settle_due_all :
      (w : Surroundings P) (limit : ℕ) (now : Time) (rows : List Row)
      → length rows ≤ limit
      → settle_due w limit now rows ≡ map_rows (visit w now) rows
  unfolding settle_due visit
  settle_due_all w zero now [] h = refl
  settle_due_all w (suc limit) now [] h = refl
  settle_due_all w zero now (r ∷ rows) h = ground arith
  settle_due_all w (suc limit) now (r ∷ rows) h =
      let one = settle_due_all w limit now rows (omega arith) in
      let same = settle_due_all w (suc limit) now rows (omega arith) in ground arith

  visit_over : (w : Surroundings P) (now : Time) (r : Row) → is_over r ≡ true → visit w now r ≡ r
  unfolding visit
  visit_over w now r h = rw (over_skipped now r h) refl

  visit_moves :
      (w : Surroundings P) (n : ℕ) (t now : Time) (r : Row)
      → t + minute < now
      → IsMoved n t r
      → IsMoved (n + 1) now (visit w now r)
  unfolding visit
  visit_moves w n t now r d (inl h) = inl (ap is_over (visit_over w now r h) ∙ h)
  visit_moves w n t now r d (inr (a, _, k)) = elim (Bool-cases (is_over r)) [
    | inl over ↦ inl (ap is_over (visit_over w now r over) ∙ over)
    | inr live ↦
        subst (λ b. IsMoved (n + 1) now (if b then settled_by now (failure w r.message) r else r))
          (sym (live_due t now r d live k)) (settled_moves n now (failure w r.message) r a)
  ]

  visit-id : (w : Surroundings P) (now : Time) (r : Row) → (visit w now r).message.id ≡ r.message.id
  unfolding visit
  visit-id w now r = let e = settled_by-id now (failure w r.message) r in ground arith

  passes_move :
      (limit n : ℕ) (t : Time) (ps : List (Pass P)) (rows : List Row)
      → IsKeyed rows
      → length rows ≤ limit
      → IsSpaced t ps
      → All (IsMoved n t) rows
      → (u : Time) × All (IsMoved (n + length ps) u) (run_passes limit ps rows)
  unfolding run_passes
  passes_move limit n t [] rows k l d h = (t, subst (λ j. All (IsMoved j t) rows) (omega arith) h)
  passes_move limit n t (p ∷ ps) rows k l d h =
      let one =
        run_once_settles p.around p.order limit p.now rows k
        ∙ settle_due_all p.around limit p.now rows l in
      let (u, m) =
        passes_move limit (n + 1) p.now ps (map_rows (visit p.around p.now) rows)
          (map_rows-IsKeyed (visit p.around p.now) rows (visit-id p.around p.now) k)
          (omega (arith, map_rows-length (visit p.around p.now) rows)) d.1
          (All-map_rows (IsMoved n t) (IsMoved (n + 1) p.now) (visit p.around p.now) rows
            (λ r. visit_moves p.around n t p.now r d.0) h) in
      (
        u,
        subst (λ x. All (IsMoved (n + suc (length ps)) u) (run_passes limit ps x)) (sym one)
            (subst
              (λ j. All (IsMoved j u) (run_passes limit ps (map_rows (visit p.around p.now) rows)))
              (omega arith) m),
      )

  -- Every message comes to an end: where the passes, five or more, each take up to `limit` messages,
  -- which is no less than the number of rows, and each comes more than a minute after the one before
  -- it and after every lock in the table, each row is published or failed after them, whatever the
  -- decoders and the bus answered in each pass and in whatever order the messages came.
  pub run_passes_over :
      (limit : ℕ) (t : Time) (ps : List (Pass P)) (rows : List Row)
      → IsKeyed rows
      → length rows ≤ limit
      → All (λ r. LockedBy t r.locked_at) rows
      → IsSpaced t ps
      → max_attempts ≤ length ps
      → All (λ r. is_over r ≡ true) (run_passes limit ps rows)
  run_passes_over limit t ps rows k l locks d five =
      let start =
        All-map (λ r. LockedBy t r.locked_at) (IsMoved 0 t) rows
          (λ r h. inr (omega arith, omega arith, h)) locks in
      let (u, m) = passes_move limit 0 t ps rows k l d start in
      All-map (IsMoved (0 + length ps) u) (λ r. is_over r ≡ true) (run_passes limit ps rows)
        (λ r. moved_over u (0 + length ps) r (omega arith)) m
