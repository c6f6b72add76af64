-- ===== src/Exec.antt =====
-- Calls of the service on the store: state and errors. The state is what the database has committed,
-- or what the open transaction sees, with the numbers of statements run, of readings of the clock
-- and of identifiers drawn, by which the environment answers.
pub mod Outcomes
use drone_management_system.Base.{◌/◌, ℕ, ◌+◌, Option, none, some, Bool, String, if◌then◌else◌}
use drone_management_system.Domain.{Time, Error, driver}
use drone_management_system.Tables.{Db}

-- What the program does not implement: the clock, the generator of UUIDs, the order of texts in the
-- database, the rows that other transactions hold locked when a statement runs, and the statements
-- that fail. A collision of UUIDs in the outbox is such a failure. The clock answers in nanoseconds.
pub record Env : Type 0 where
  pub clock : ℕ → ℕ
  pub uuid : ℕ → String
  pub collate : String → String → Bool
  pub locked : ℕ → String → Bool
  pub fault : ℕ → Bool

pub record State : Type 0 where
  pub db : Db
  pub calls : ℕ
  pub ticks : ℕ
  pub ids : ℕ

pub data Result {ℓ} (A : Type ℓ) : Type ℓ where
  ok : A → Result A
  err : Error → Result A

abbrev pub Exec : Type 0 → Type 0
Exec A = State → Result A × State

abbrev pub ⊤ : Type 0
⊤ = Unit

unfoldable pub pure : {A : Type 0} → A → Exec A
pure a s = (ok a, s)

unfoldable pub raise : {A : Type 0} → Error → Exec A
raise e s = (err e, s)

abbrev pub continue : {A B : Type 0} → Result A → (A → Exec B) → Exec B
continue (ok a) f s = f a s
continue (err e) f s = (err e, s)

-- `if cond { return nil, err }`
unfoldable pub raise_if : Bool → Error → Exec ⊤
raise_if c e s = (if c then err e else ok tt, s)

-- `if err != nil { return nil, e }` for an error value, where the code returns an error of its own.
unfoldable pub raise_on : Option Error → Error → Exec ⊤
raise_on none e s = (ok tt, s)
raise_on (some _) e s = (err e, s)

-- A nil result with a nil error, which the caller tests for.
abbrev pub or_error {ℓ} : {A : Type ℓ} → Option A → Error → Result A
or_error none e = err e
or_error (some a) e = ok a

unfoldable pub lift : {A : Type 0} → Result A → Exec A
lift r s = (r, s)

infixl 5 ◌>>=◌ ◌>>◌
-- To open this opens the actions above too.
unfoldable pub ◌>>=◌ : {A B : Type 0} → Exec A → (A → Exec B) → Exec B
unfolding pure raise raise_if raise_on lift
◌>>=◌ m f s = let r = m s in continue r.0 f r.1

abbrev pub ◌>>◌ : {A B : Type 0} → Exec A → Exec B → Exec B
m >> k = m >>= λ _. k

-- The body of a transaction by its outcome: kept if it returned and the commit goes through, and
-- rolled back by the deferred `Rollback` otherwise.
abbrev pub conclude : {A : Type 0} → Bool → Db → Result A × State → Result A × State
conclude lost before (ok a, s) =
    let s' = record s { calls = s.calls + 1 } in
    if lost then (err driver, record s' { db = before }) else (ok a, s')
conclude lost before (err e, s) = (err e, record s { db = before })

module _ (env : Env) where
  -- The clock's reading to the microsecond, which is what a column of type `timestamptz` keeps.
  abbrev pub clock_micros : ℕ → Time
  clock_micros n = env.clock n / 1000

  -- `s.now()`
  unfoldable pub now : Exec Time
  now s = (ok (clock_micros s.ticks), record s { ticks = s.ticks + 1 })

  -- `uuid.NewString()`
  unfoldable pub uuid_new_string : Exec String
  uuid_new_string s = (ok (env.uuid s.ids), record s { ids = s.ids + 1 })

  -- One statement on the tables; it fails as the environment decides.
  unfoldable pub statement : {A : Type 0} → (Db → Result A × Db) → Exec A
  statement g s =
      let s' = record s { calls = s.calls + 1 } in
      let answer = g s.db in
      if env.fault s.calls then (err driver, s') else (answer.0, record s' { db = answer.1 })

  -- `BeginTx`, `defer tx.Rollback`, the body, and `Commit` as its last call.
  unfoldable pub in_tx : {A : Type 0} → Exec A → Exec A
  in_tx body s =
      let s' = record s { calls = s.calls + 1 } in
      let done = body s' in
      if env.fault s.calls then (err driver, s') else conclude (env.fault done.1.calls) s.db done
