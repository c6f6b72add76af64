-- ===== src/Outbox.antt =====
-- internal/events/outbox.go, the worker that publishes the events of the outbox, with
-- internal/repo/postgres/outbox.go. A tick of the loop reads what its calls answer from `Tick`.
pub mod Delivery
pub mod Progress
use drone_management_system.Domain.{Time}
use drone_management_system.Tables.{outbox_mark_published, OutboxRow, outbox_fetch_pending}
use drone_management_system.Events.{Event}
use drone_management_system.Integer.{ℤ, pos, negsuc}
use drone_management_system.Base.{
  map, ◌++◌, String, if◌then◌else◌, ℕ, List, Bool, zero, suc, [], ◌∷◌,
}

-- `BatchSize`: 50 where it is not set. `FetchPending` has the same default for its limit.
unfoldable pub batch_limit : ℤ → ℕ
batch_limit (pos zero) = 50
batch_limit (pos (suc n)) = suc n
batch_limit (negsuc n) = 50

-- What the database and the publisher answer during one tick: `accepts event` where `Publish` of the
-- event returns no error.
pub record Tick : Type 0 where
  pub fetch_fails : Bool
  pub accepts : Event → Bool
  pub mark_fails : Bool
  pub time : Time

-- What the worker works on: the rows of the outbox.
pub record Worker : Type 0 where
  pub outbox : List OutboxRow

-- `FetchPending`
unfoldable pub fetch_pending : ℤ → List OutboxRow → List Event
unfolding batch_limit outbox_fetch_pending
fetch_pending limit rows = map (λ r. r.event) (outbox_fetch_pending (batch_limit limit) rows)

-- `MarkPublished`: without identifiers there is no statement.
unfoldable pub mark_published : List String → Time → List OutboxRow → List OutboxRow
mark_published [] time rows = rows
mark_published (id ∷ ids) time rows = outbox_mark_published (id ∷ ids) time rows

-- The loop over the batch, with its `published`: the identifier of an event that the publisher refuses
-- is left out.
unfoldable pub publish_all : (Event → Bool) → List Event → List String
publish_all accepts [] = []
publish_all accepts (event ∷ events) =
    let rest = publish_all accepts events in if accepts event then event.id ∷ rest else rest

-- One tick: fetch, publish, mark what was published. No call's failure ends the loop.
abbrev pub publish_batch : Tick → List Event → Worker → Worker
publish_batch t [] w = w
publish_batch t (event ∷ events) w = record {
  outbox =
      if t.mark_fails
      then w.outbox
      else mark_published (publish_all t.accepts (event ∷ events)) t.time w.outbox;
}

unfoldable pub tick : ℤ → Tick → Worker → Worker
unfolding fetch_pending mark_published publish_all
tick batch_size t w =
    if t.fetch_fails then w else publish_batch t (fetch_pending batch_size w.outbox) w

unfoldable pub ticks : ℤ → List Tick → Worker → Worker
unfolding tick
ticks batch_size [] w = w
ticks batch_size (t ∷ ts) w = ticks batch_size ts (tick batch_size t w)
