-- ===== src/Outbox/Delivery.antt =====
-- internal/events/outbox.go: what the loop of the worker makes of each row of the outbox.
use mathlib.Core.Path.{subst}
use drone_management_system.Domain.{Time}
use drone_management_system.Integer.{ℤ}
use drone_management_system.Events.{Event}
use drone_management_system.Tables.{any_id, is_pending, OutboxRow, outbox_mark_published}
use drone_management_system.Outbox.{
  fetch_pending, publish_all, Worker, tick, mark_published, ticks, Tick, publish_batch,
}
use drone_management_system.Exec.{⊤}
use drone_management_system.Base.{
  String, inl, inr, Bool, true, false, arith, ◌⊎◌, ◌==◌, Bool-cases, List, [], ◌∷◌, ◌≡◌, refl, ◌∙◌,
  eq_of_true, if◌then◌else◌,
}

-- The publisher accepts, in this tick, an event of the identifier.
pub record AcceptedBy (t : Tick) (id : String) : Type 0 where
  pub event : Event
  pub same_id : event.id ≡ id
  pub accepted : t.accepts event ≡ true

-- In one of the ticks the publisher accepts an event of the identifier.
pub data AcceptedIn (id : String) : List Tick → Type 0 where
  now_accepted : {t : Tick} {ts : List Tick} → AcceptedBy t id → AcceptedIn id (t ∷ ts)
  later_accepted : {t : Tick} {ts : List Tick} → AcceptedIn id ts → AcceptedIn id (t ∷ ts)

-- What has become of a row: it holds the same event, and if it waits no more, it did not wait before
-- or its identifier is one that `A` holds of.
pub record IsAccounted (A : String → Type 0) (row row' : OutboxRow) : Type 0 where
  pub event : row'.event ≡ row.event
  pub published : is_pending row' ≡ false → (is_pending row ≡ false) ⊎ A row.event.id

-- The same for each row of two tables, which are as long as one another.
abbrev pub AllAccounted : (String → Type 0) → List OutboxRow → List OutboxRow → Type 0
AllAccounted A [] [] = ⊤
AllAccounted A (row ∷ rows) (row' ∷ rows') = IsAccounted A row row' × AllAccounted A rows rows'
AllAccounted A [] (row' ∷ rows') = ⊥
AllAccounted A (row ∷ rows) [] = ⊥

IsAccounted-same : (A : String → Type 0) (row : OutboxRow) → IsAccounted A row row
IsAccounted-same A row = record { event = refl; published = λ h. inl h }

AllAccounted-same : (A : String → Type 0) (rows : List OutboxRow) → AllAccounted A rows rows
AllAccounted-same A [] = tt
AllAccounted-same A (row ∷ rows) = (IsAccounted-same A row, AllAccounted-same A rows)

IsAccounted-then :
    (t : Tick) (ts : List Tick) (a b c : OutboxRow)
    → IsAccounted (AcceptedBy t) a b
    → IsAccounted (λ id. AcceptedIn id ts) b c
    → IsAccounted (λ id. AcceptedIn id (t ∷ ts)) a c
IsAccounted-then t ts a b c p q = record {
  event = q.event ∙ p.event;
  published = λ h. elim (q.published h) [
    | inl before ↦ elim (p.published before) [
      | inl waited ↦ inl waited
      | inr accepted ↦ inr (now_accepted accepted)
    ]
    | inr later ↦ inr (later_accepted (subst (λ event. AcceptedIn event.id ts) p.event later))
  ];
}

AllAccounted-then :
    (t : Tick) (ts : List Tick) (a b c : List OutboxRow)
    → AllAccounted (AcceptedBy t) a b
    → AllAccounted (λ id. AcceptedIn id ts) b c
    → AllAccounted (λ id. AcceptedIn id (t ∷ ts)) a c
AllAccounted-then t ts [] [] [] p q = tt
AllAccounted-then t ts (a ∷ more_a) (b ∷ more_b) (c ∷ more_c) p q =
    (IsAccounted-then t ts a b c p.0 q.0, AllAccounted-then t ts more_a more_b more_c p.1 q.1)
AllAccounted-then t ts [] [] (c ∷ more_c) p q = absurd q
AllAccounted-then t ts [] (b ∷ more_b) c p q = absurd p
AllAccounted-then t ts (a ∷ more_a) [] c p q = absurd p
AllAccounted-then t ts (a ∷ more_a) (b ∷ more_b) [] p q = absurd q

-- An identifier that is published is one of an event that was accepted.
publish_all-AcceptedBy :
    (t : Tick) (events : List Event) (id : String)
    → any_id (publish_all t.accepts events) id ≡ true
    → AcceptedBy t id
unfolding publish_all
publish_all-AcceptedBy t [] id h = cc
publish_all-AcceptedBy t (event ∷ events) id h =
    let rest = publish_all-AcceptedBy t events id in
    elim (Bool-cases (t.accepts event)) [
      | inl e ↦ elim (Bool-cases (event.id == id)) [
        | inl same ↦ record { event = event; same_id = eq_of_true event.id id same; accepted = e }
        | inr other ↦ rest (ground (arith, h, e, other))
      ]
      | inr e ↦ rest (ground (arith, h, e))
    ]

mark-AllAccounted :
    (A : String → Type 0) (ids : List String) (time : Time) (rows : List OutboxRow)
    → ((id : String) → any_id ids id ≡ true → A id)
    → AllAccounted A rows (outbox_mark_published ids time rows)
unfolding outbox_mark_published
mark-AllAccounted A ids time [] h = tt
mark-AllAccounted A ids time (row ∷ rows) h = (
  elim (Bool-cases (any_id ids row.event.id)) [
    | inl e ↦ rw e (record { event = refl; published = λ p. inr (h row.event.id e) })
    | inr e ↦ rw e (IsAccounted-same A row)
  ],
  mark-AllAccounted A ids time rows h,
)

mark_published-AllAccounted :
    (A : String → Type 0) (ids : List String) (time : Time) (rows : List OutboxRow)
    → ((id : String) → any_id ids id ≡ true → A id)
    → AllAccounted A rows (mark_published ids time rows)
unfolding mark_published
mark_published-AllAccounted A [] time rows h = AllAccounted-same A rows
mark_published-AllAccounted A (id ∷ ids) time rows h = mark-AllAccounted A (id ∷ ids) time rows h

-- A table that a failure leaves as it is.
unless-AllAccounted :
    (A : String → Type 0) (fails : Bool) (rows rows' : List OutboxRow)
    → AllAccounted A rows rows'
    → AllAccounted A rows (if fails then rows else rows')
unless-AllAccounted A true rows rows' h = AllAccounted-same A rows
unless-AllAccounted A false rows rows' h = h

publish_batch-AllAccounted :
    (t : Tick) (events : List Event) (w : Worker)
    → AllAccounted (AcceptedBy t) w.outbox (publish_batch t events w).outbox
publish_batch-AllAccounted t [] w = AllAccounted-same (AcceptedBy t) w.outbox
publish_batch-AllAccounted t (event ∷ events) w =
    unless-AllAccounted (AcceptedBy t) t.mark_fails w.outbox
      (mark_published (publish_all t.accepts (event ∷ events)) t.time w.outbox)
      (mark_published-AllAccounted (AcceptedBy t) (publish_all t.accepts (event ∷ events)) t.time
        w.outbox (publish_all-AcceptedBy t (event ∷ events)))

tick-AllAccounted :
    (batch_size : ℤ) (t : Tick) (w : Worker)
    → AllAccounted (AcceptedBy t) w.outbox (tick batch_size t w).outbox
unfolding tick
tick-AllAccounted batch_size t w = of t.fetch_fails
  where
    of :
        (b : Bool)
        → AllAccounted
            (AcceptedBy t)
            w.outbox
            (if b then w else publish_batch t (fetch_pending batch_size w.outbox) w).outbox
    of true = AllAccounted-same (AcceptedBy t) w.outbox
    of false = publish_batch-AllAccounted t (fetch_pending batch_size w.outbox) w

-- After any number of ticks, whatever the database and the publisher answer, the outbox has the
-- same rows with the same events, and a row that waits no more did not wait at the start, or in
-- one of the ticks the publisher has accepted an event of its identifier.
pub ticks-AllAccounted :
    (batch_size : ℤ) (ts : List Tick) (w : Worker)
    → AllAccounted (λ id. AcceptedIn id ts) w.outbox (ticks batch_size ts w).outbox
unfolding ticks
ticks-AllAccounted batch_size [] w = AllAccounted-same (λ id. AcceptedIn id []) w.outbox
ticks-AllAccounted batch_size (t ∷ ts) w =
    AllAccounted-then t ts w.outbox (tick batch_size t w).outbox
      (ticks batch_size ts (tick batch_size t w)).outbox (tick-AllAccounted batch_size t w)
      (ticks-AllAccounted batch_size ts (tick batch_size t w))
