-- ===== src/Outbox/Progress.antt =====
-- internal/events/outbox.go: how many rows of the outbox wait while the worker runs.
use drone_management_system.Integer.{ℤ}
use mathlib.Core.Path.{subst}
use drone_management_system.Integer.{pos, negsuc}
use drone_management_system.Sorting.Laws.{All-where, All-sort_by, All-weaken, All}
use drone_management_system.Sorting.{insert_by, sort_by, where_}
use drone_management_system.Events.{Event}
use drone_management_system.Domain.{Time}
use drone_management_system.Outbox.{
  ticks, fetch_pending, batch_limit, tick, publish_batch, Worker, publish_all, mark_published, Tick,
}
use drone_management_system.Tables.{
  take, occurred_no_later, outbox_fetch_pending, any_id, is_pending, OutboxRow,
  outbox_mark_published,
}
use drone_management_system.Base.{
  length, ◌∙◌, sym, ◌-◌, ◌⊎◌, eq_self, map, ◌+◌, if◌then◌else◌, String, ℕ, zero, suc, ◌≤◌, ◌<◌,
  Bool, true, false, Bool-cases, inl, inr, List, [], ◌∷◌, arith, ◌≡◌, refl,
}

-- The rows that wait.
abbrev pub pending : List OutboxRow → ℕ
pending [] = 0
pending (row ∷ rows) = (if is_pending row then 1 else 0) + pending rows

-- A tick in which no call fails and the publisher accepts every event.
abbrev pub IsSmooth : Tick → Type 0
IsSmooth t = (t.fetch_fails ≡ false) × ((t.mark_fails ≡ false) × ((e : Event) → t.accepts e ≡ true))

mark-pending :
    (ids : List String) (now : Time) (rows : List OutboxRow)
    → pending (outbox_mark_published ids now rows) ≤ pending rows
unfolding outbox_mark_published
mark-pending ids now [] = omega arith
mark-pending ids now (row ∷ rows) =
    let rest = mark-pending ids now rows in
    elim (Bool-cases (any_id ids row.event.id)) [
      | inl e ↦ rw e (omega arith)
      | inr e ↦ rw e (omega arith)
    ]

-- If the row waits and its identifier is marked, fewer rows wait.
abbrev Lessens : List String → Time → List OutboxRow → OutboxRow → Type 0
Lessens ids now rows row =
    is_pending row ≡ true
    → any_id ids row.event.id ≡ true
    → pending (outbox_mark_published ids now rows) < pending rows

head-Lessens :
    (ids : List String) (now : Time) (row : OutboxRow) (rows : List OutboxRow)
    → Lessens ids now (row ∷ rows) row
unfolding outbox_mark_published
head-Lessens ids now row rows p a = let fewer = mark-pending ids now rows in rw (a, p) (omega arith)

tail-Lessens :
    (ids : List String) (now : Time) (row x : OutboxRow) (rows : List OutboxRow)
    → Lessens ids now rows x
    → Lessens ids now (row ∷ rows) x
unfolding outbox_mark_published
tail-Lessens ids now row x rows h p a =
    let less = h p a in
    elim (Bool-cases (any_id ids row.event.id)) [
      | inl e ↦ rw e (omega arith)
      | inr e ↦ rw e (omega arith)
    ]

-- For every batch at once.
abbrev AlwaysLessens : List OutboxRow → OutboxRow → Type 0
AlwaysLessens rows row = (ids : List String) (now : Time) → Lessens ids now rows row

AlwaysLessens-rows : (rows : List OutboxRow) → All (AlwaysLessens rows) rows
AlwaysLessens-rows [] = tt
AlwaysLessens-rows (row ∷ rows) = (
  (λ ids now. head-Lessens ids now row rows),
  All-weaken (AlwaysLessens rows) (AlwaysLessens (row ∷ rows)) rows
      (λ x h ids now. tail-Lessens ids now row x rows (h ids now)) (AlwaysLessens-rows rows),
)

-- What waits is what is fetched first.
where-pending : (rows : List OutboxRow) → where_ is_pending rows ≡ [] → pending rows ≡ 0
unfolding where_
where-pending [] h = refl
where-pending (row ∷ rows) h = by_row (is_pending row) refl h (where-pending rows)
  where
    by_row :
        (b : Bool)
        → is_pending row ≡ b
        → (if b then row ∷ where_ is_pending rows else where_ is_pending rows) ≡ []
        → (where_ is_pending rows ≡ [] → pending rows ≡ 0)
        → (if is_pending row then 1 else 0) + pending rows ≡ 0
    by_row true e empty rest = cc
    by_row false e empty rest = rw e (omega (arith, rest empty))

publish_all-accepted :
    (accepts : Event → Bool) (events : List Event)
    → ((e : Event) → accepts e ≡ true)
    → publish_all accepts events ≡ map (λ e. e.id) events
unfolding publish_all
publish_all-accepted accepts [] h = refl
publish_all-accepted accepts (event ∷ events) h =
    rw (h event, publish_all-accepted accepts events h) refl

-- One batch whose first row waits.
batch-pending :
    (t : Tick) (row : OutboxRow) (more : List OutboxRow) (w : Worker)
    → t.mark_fails ≡ false
    → ((e : Event) → t.accepts e ≡ true)
    → is_pending row ≡ true
    → ((ids : List String) (now : Time) → Lessens ids now w.outbox row)
    → pending (publish_batch t (map (λ r. r.event) (row ∷ more)) w).outbox < pending w.outbox
unfolding mark_published
batch-pending t row more w m a p lessens =
    rw (m, publish_all-accepted t.accepts (map (λ r. r.event) (row ∷ more)) a)
      (lessens (map (λ e. e.id) (map (λ r. r.event) (row ∷ more))) t.time p
        (rw (eq_self row.event.id) refl))

batch_limit-suc : (batch_size : ℤ) → (k : ℕ) × (batch_limit batch_size ≡ suc k)
unfolding batch_limit
batch_limit-suc (pos zero) = (49, refl)
batch_limit-suc (pos (suc n)) = (n, refl)
batch_limit-suc (negsuc n) = (49, refl)

insert_by-nonempty :
    (le : OutboxRow → OutboxRow → Bool) (row : OutboxRow) (rows : List OutboxRow)
    → (x : OutboxRow) × ((xs : List OutboxRow) × (insert_by le row rows ≡ x ∷ xs))
unfolding insert_by
insert_by-nonempty le row [] = (row, ([], refl))
insert_by-nonempty le row (y ∷ ys) = elim (Bool-cases (le row y)) [
  | inl e ↦ (row, (y ∷ ys, rw e refl))
  | inr e ↦ (y, (insert_by le row ys, rw e refl))
]

-- A sorted list is empty only where the list is.
sort_by-cases :
    (le : OutboxRow → OutboxRow → Bool) (rows : List OutboxRow)
    → (rows ≡ []) ⊎ ((x : OutboxRow) × ((xs : List OutboxRow) × (sort_by le rows ≡ x ∷ xs)))
unfolding sort_by
sort_by-cases le [] = inl refl
sort_by-cases le (row ∷ rows) = inr (insert_by-nonempty le row (sort_by le rows))

-- Nothing is fetched only where no row waits.
sorted-nonempty :
    (w : List OutboxRow) → sort_by occurred_no_later (where_ is_pending w) ≡ [] → pending w ≡ 0
sorted-nonempty w h = elim (sort_by-cases occurred_no_later (where_ is_pending w)) [
  | inl e ↦ where-pending w e
  | inr (row, (more, e)) ↦ absurd (cons_nil (sym e ∙ h))
]
  where
    cons_nil : {r : OutboxRow} {rs : List OutboxRow} → (r ∷ rs) ≡ [] → ⊥
    cons_nil e = cc

-- The batch that is taken of the rows that wait.
taken-pending :
    (t : Tick) (w : Worker) (k : ℕ) (rows : List OutboxRow)
    → t.mark_fails ≡ false
    → ((e : Event) → t.accepts e ≡ true)
    → All (λ r. AlwaysLessens w.outbox r × (is_pending r ≡ true)) rows
    → (rows ≡ [] → pending w.outbox ≡ 0)
    → pending (publish_batch t (map (λ r. r.event) (take (suc k) rows)) w).outbox
      ≤ pending w.outbox - 1
taken-pending t w k [] m a facts h = omega (arith, h refl)
taken-pending t w k (row ∷ rows) m a facts h =
    omega (arith, batch-pending t row (take k rows) w m a facts.0.1 facts.0.0)

-- A tick in which nothing fails leaves fewer rows that wait, if any does.
tick-pending :
    (batch_size : ℤ) (t : Tick) (w : Worker)
    → IsSmooth t
    → pending (tick batch_size t w).outbox ≤ pending w.outbox - 1
unfolding tick fetch_pending outbox_fetch_pending
tick-pending batch_size t w (f, (m, a)) =
    let (k, limit) = batch_limit-suc batch_size in
    subst
      (λ b.
        pending (if b then w else publish_batch t (fetch_pending batch_size w.outbox) w).outbox
        ≤ pending w.outbox - 1)
      (sym f)
      (subst
        (λ n.
          pending
            (publish_batch t
              (map (λ r. r.event) (take n (sort_by occurred_no_later (where_ is_pending w.outbox))))
              w).outbox
          ≤ pending w.outbox - 1)
        (sym limit)
        (taken-pending t w k (sort_by occurred_no_later (where_ is_pending w.outbox)) m a
          (All-sort_by (λ r. AlwaysLessens w.outbox r × (is_pending r ≡ true)) occurred_no_later
            (where_ is_pending w.outbox)
            (All-where (AlwaysLessens w.outbox) is_pending w.outbox (AlwaysLessens-rows w.outbox)))
          (sorted-nonempty w.outbox)))

-- After as many ticks as there are rows that wait no row waits, if in none of the ticks a call of
-- the database fails and the publisher accepts every event.
pub ticks-pending :
    (batch_size : ℤ) (ts : List Tick) (w : Worker)
    → All IsSmooth ts
    → pending w.outbox ≤ length ts
    → pending (ticks batch_size ts w).outbox ≡ 0
unfolding ticks
ticks-pending batch_size [] w smooth h = omega arith
ticks-pending batch_size (t ∷ ts) w (s, smooth) h =
    ticks-pending batch_size ts (tick batch_size t w) smooth
      (omega (arith, tick-pending batch_size t w s))
