-- ===== src/Exec/Outcomes.antt =====
-- What a call ensures from given tables: of the tables when it returns, of the error when it does
-- not. A fault of the environment excuses an error of the driver and nothing else.
use drone_management_system.Base.{
  ◌≢◌, ℕ, ◌+◌, ◌≡◌, refl, ◌⊎◌, inl, inr, Option, none, some, Bool, true, false, String, Bool-cases,
}
use drone_management_system.Domain.{Time, Error, driver}
use drone_management_system.Tables.{Db}
use drone_management_system.Exec.{
  clock_micros, or_error, lift, in_tx, conclude, Env, State, Result, ok, err, Exec, pure, raise,
  ◌>>=◌, ◌>>◌, raise_if, raise_on, continue, now, uuid_new_string, statement,
}

abbrev pub Trouble : Env → Type 0
Trouble env = (n : ℕ) × (env.fault n ≡ true)

abbrev pub Excused : Env → (Error → Type 0) → Error → Type 0
Excused env Err e = Err e ⊎ ((e ≡ driver) × Trouble env)

module _ {A : Type 0} where
  abbrev pub Settles : Env → (A → Db → Type 0) → (Error → Type 0) → Result A × State → Type 0
  Settles env Ok Err (ok a, s) = Ok a s.db
  Settles env Ok Err (err e, s) = Excused env Err e

  -- The same, and an error leaves the tables `d` as they were.
  abbrev pub Outcome : Env → Db → (A → Db → Type 0) → (Error → Type 0) → Result A × State → Type 0
  Outcome env d Ok Err (ok a, s) = Ok a s.db
  Outcome env d Ok Err (err e, s) = (s.db ≡ d) × Excused env Err e

  pub record Ensures (env : Env) (m : Exec A) (d : Db) (Ok : A → Db → Type 0) (Err : Error → Type 0)
      : Type 0 where
    pub at : (c t i : ℕ) → Settles env Ok Err (m (record { db = d; calls = c; ticks = t; ids = i }))

module _ (env : Env) {A : Type 0} {d : Db} {Ok : A → Db → Type 0} {Err : Error → Type 0} where
  pub Ensures-pure : (a : A) → Ok a d → Ensures env (pure a) d Ok Err
  unfolding ◌>>=◌
  Ensures-pure a h = record { at = λ c t i. h }

  pub Ensures-raise : (e : Error) → Err e → Ensures env (raise e) d Ok Err
  unfolding ◌>>=◌
  Ensures-raise e h = record { at = λ c t i. inl h }

  pub Ensures-raise_if :
      (b : Bool) (e : Error) (k : Exec A)
      → (b ≡ true → Err e)
      → (b ≡ false → Ensures env k d Ok Err)
      → Ensures env (raise_if b e >> k) d Ok Err
  unfolding ◌>>=◌
  Ensures-raise_if true e k bad good = record { at = λ c t i. inl (bad refl) }
  Ensures-raise_if false e k bad good = record { at = λ c t i. (good refl).at c t i }

  pub Ensures-raise_on :
      (o : Option Error) (e : Error) (k : Exec A)
      → ((x : Error) → o ≡ some x → Err e)
      → (o ≡ none → Ensures env k d Ok Err)
      → Ensures env (raise_on o e >> k) d Ok Err
  unfolding ◌>>=◌
  Ensures-raise_on (some x) e k bad good = record { at = λ c t i. inl (bad x refl) }
  Ensures-raise_on none e k bad good = record { at = λ c t i. (good refl).at c t i }

  pub Ensures-now :
      (f : Time → Exec A)
      → ((time : Time) → Ensures env (f time) d Ok Err)
      → Ensures env (now env >>= f) d Ok Err
  unfolding now ◌>>=◌
  Ensures-now f h = record { at = λ c t i. (h (clock_micros env t)).at c (t + 1) i }

  -- The same, where it matters that the time is the clock's.
  pub Ensures-clock :
      (f : Time → Exec A)
      → ((n : ℕ) → Ensures env (f (clock_micros env n)) d Ok Err)
      → Ensures env (now env >>= f) d Ok Err
  unfolding now ◌>>=◌
  Ensures-clock f h = record { at = λ c t i. (h t).at c (t + 1) i }

  pub Ensures-uuid :
      (f : String → Exec A)
      → ((id : String) → Ensures env (f id) d Ok Err)
      → Ensures env (uuid_new_string env >>= f) d Ok Err
  unfolding uuid_new_string ◌>>=◌
  Ensures-uuid f h = record { at = λ c t i. (h (env.uuid i)).at c t (i + 1) }

-- What is left to show after a statement has answered.
abbrev pub Next :
    {A B : Type 0}
    → Env
    → (B → Db → Type 0)
    → (Error → Type 0)
    → (A → Exec B)
    → Result A × Db
    → Type 0
Next env Ok Err f (ok a, d) = Ensures env (f a) d Ok Err
Next env Ok Err f (err e, d) = Err e

Next-Settles :
    {A B : Type 0} (env : Env) (Ok : B → Db → Type 0) (Err : Error → Type 0) (f : A → Exec B)
    (r : Result A × Db) (c t i : ℕ)
    → Next env Ok Err f r
    → Settles env Ok Err (continue r.0 f (record { db = r.1; calls = c; ticks = t; ids = i }))
Next-Settles env Ok Err f (ok a, d) c t i h = h.at c t i
Next-Settles env Ok Err f (err e, d) c t i h = inl h

module _ (env : Env) {A B : Type 0} {d : Db} {Ok : B → Db → Type 0} {Err : Error → Type 0} where
  pub Ensures-statement :
      (g : Db → Result A × Db) (f : A → Exec B)
      → Next env Ok Err f (g d)
      → Ensures env (statement env g >>= f) d Ok Err
  unfolding statement ◌>>=◌
  Ensures-statement g f h = record {
    at = λ c t i. elim (Bool-cases (env.fault c)) [
      | inl e ↦ rw e (inr (refl, (c, e)))
      | inr e ↦ rw e (Next-Settles env Ok Err f (g d) (c + 1) t i h)
    ];
  }

Settles-assoc :
    {A B C : Type 0} (env : Env) (Ok : C → Db → Type 0) (Err : Error → Type 0) (g : A → Exec B)
    (f : B → Exec C) (r : Result A) (s : State)
    → Settles env Ok Err (continue r (λ a. g a >>= f) s)
    → Settles env Ok Err (continue (continue r g s).0 f (continue r g s).1)
unfolding ◌>>=◌
Settles-assoc env Ok Err g f (ok a) s h = h
Settles-assoc env Ok Err g f (err e) s h = h

-- A block inside a block runs as one.
pub Ensures-assoc :
    {A B C : Type 0} (env : Env) {d : Db} {Ok : C → Db → Type 0} {Err : Error → Type 0} (m : Exec A)
    (g : A → Exec B) (f : B → Exec C)
    → Ensures env (m >>= λ a. g a >>= f) d Ok Err
    → Ensures env ((m >>= g) >>= f) d Ok Err
unfolding ◌>>=◌
Ensures-assoc env {d} {Ok} {Err} m g f h = record {
  at = λ c t i.
      let r = m (record { db = d; calls = c; ticks = t; ids = i }) in
      Settles-assoc env Ok Err g f r.0 r.1 (h.at c t i);
}

-- A value that is returned goes on into the rest.
pub Ensures-return :
    {A B : Type 0} (env : Env) {d : Db} {Ok : B → Db → Type 0} {Err : Error → Type 0} (a : A)
    (f : A → Exec B)
    → Ensures env (f a) d Ok Err
    → Ensures env (pure a >>= f) d Ok Err
unfolding ◌>>=◌
Ensures-return env a f h = record { at = λ c t i. h.at c t i }

conclude-Outcome :
    {A : Type 0} (env : Env) (Ok : A → Db → Type 0) (Err : Error → Type 0) (lost : Bool)
    (before : Db) (done : Result A × State)
    → (lost ≡ true → Trouble env)
    → Settles env Ok Err done
    → Outcome env before Ok Err (conclude lost before done)
conclude-Outcome env Ok Err true before (ok a, s) why h = (refl, inr (refl, why refl))
conclude-Outcome env Ok Err false before (ok a, s) why h = h
conclude-Outcome env Ok Err true before (err e, s) why h = (refl, h)
conclude-Outcome env Ok Err false before (err e, s) why h = (refl, h)

-- A transaction commits what its body ensures, or leaves the tables as they were.
pub in_tx-Outcome :
    {A : Type 0} (env : Env) (Ok : A → Db → Type 0) (Err : Error → Type 0) (body : Exec A)
    (s : State)
    → Ensures env body s.db Ok Err
    → Outcome env s.db Ok Err (in_tx env body s)
unfolding in_tx
in_tx-Outcome env Ok Err body s h = elim (Bool-cases (env.fault s.calls)) [
  | inl e ↦ rw e (refl, inr (refl, (s.calls, e)))
  | inr e ↦ rw e (
      let done = body (record s { calls = s.calls + 1 }) in
      conclude-Outcome env Ok Err (env.fault done.1.calls) s.db done (λ lost. (done.1.calls, lost))
        (h.at (s.calls + 1) s.ticks s.ids))
]

module _ {A : Type 0} (env : Env) (Ok : A → Db → Type 0) (Err : Error → Type 0) where
  -- A guard before the transaction.
  pub Outcome-raise_if :
      (b : Bool) (e : Error) (k : Exec A) (s : State)
      → (b ≡ true → Err e)
      → (b ≡ false → Outcome env s.db Ok Err (k s))
      → Outcome env s.db Ok Err ((raise_if b e >> k) s)
  unfolding ◌>>=◌
  Outcome-raise_if true e k s bad good = (refl, inl (bad refl))
  Outcome-raise_if false e k s bad good = good refl

  pub Outcome-raise_on :
      (o : Option Error) (e : Error) (k : Exec A) (s : State)
      → (o ≢ none → Err e)
      → (o ≡ none → Outcome env s.db Ok Err (k s))
      → Outcome env s.db Ok Err ((raise_on o e >> k) s)
  unfolding ◌>>=◌
  Outcome-raise_on (some x) e k s bad good = (refl, inl (bad (λ h. cc)))
  Outcome-raise_on none e k s bad good = good refl

-- More reasons for a refusal.
pub Outcome-weaken :
    {A : Type 0} (env : Env) (d : Db) (Ok : A → Db → Type 0) (Err Err' : Error → Type 0)
    (r : Result A × State)
    → ((e : Error) → Err e → Err' e)
    → Outcome env d Ok Err r
    → Outcome env d Ok Err' r
Outcome-weaken env d Ok Err Err' (ok a, s) f h = h
Outcome-weaken env d Ok Err Err' (err e, s) f h = elim h.1 [
  | inl r ↦ (h.0, inl (f e r))
  | inr t ↦ (h.0, inr t)
]

-- An optional value that is asked for, as a result.
module _ {A B : Type 0} (env : Env) {d : Db} {Ok : B → Db → Type 0} {Err : Error → Type 0}
    (e : Error) (f : A → Exec B) where
  pub Ensures-lift_none : Err e → Ensures env (lift (or_error none e) >>= f) d Ok Err
  unfolding ◌>>=◌
  Ensures-lift_none h = record { at = λ c t i. inl h }

  pub Ensures-lift_some :
      (a : A) → Ensures env (f a) d Ok Err → Ensures env (lift (or_error (some a) e) >>= f) d Ok Err
  unfolding ◌>>=◌
  Ensures-lift_some a h = record { at = λ c t i. h.at c t i }
