-- ===== src/Sqlite/Reached.antt =====
-- RosaServer/sqlite.cpp: what is open after any use of a database.
use rosa_server.Base.{
  ℕ, ◌≡◌, refl, sym, ap, subst, ◌∙◌, Bool, Bool-split, true, false, List, [], ◌∷◌, ◌++◌, Option,
  none, some, if◌then◌else◌, ◌==◌, Text, Call, returns, throws, Error,
}
use rosa_server.Sqlite.{
  Param, Op, prepare, finalize, close_handle, Answers, Reply, failure, Database, logged, close,
  open_database, bind_all, Ended, finished, broke, no_table, step_all, after_steps, after_binds,
  after_prepare, query_with, query, close_with,
}
use rosa_server.Sqlite.Orderly.{
  Phase, shut, idle, busy, advance, runs, runs-append, same_handle, finalize-idle, StaysBusy,
  bind_all-StaysBusy, RowsHaveColumns, StepsStay, step_all-StepsStay,
}

-- The phase of a database between the calls of its methods.
abbrev pub phase_of : Option ℕ → Phase
phase_of none = shut
phase_of (some h) = idle h

-- The calls lead to the phase that the handle says.
abbrev pub IsOrderly : Phase → Database → Type 0
IsOrderly start d = runs (some start) d.log ≡ some (phase_of d.handle)

-- The calls so far lead to a phase.
abbrev Leads : Phase → Database → Phase → Type 0
Leads start d p = runs (some start) d.log ≡ some p

Leads-logged :
    (start p q : Phase) (d : Database) (ops : List Op)
    → Leads start d p
    → runs (some p) ops ≡ some q
    → Leads start (logged d ops) q
Leads-logged start p q d ops l r = runs-append (some start) d.log ops ∙ ap (λ x. runs x ops) l ∙ r

Leads-finalized :
    (start : Phase) (h : ℕ) (d : Database) (a : Answers) (ops : List Op)
    → Leads start d (busy h a.statement)
    → StaysBusy a ops
    → Leads start (logged d (ops ++ finalize a.statement ∷ [])) (idle h)
Leads-finalized start h d a ops l s =
    Leads-logged start (busy h a.statement) (idle h) d (ops ++ finalize a.statement ∷ []) l (
      runs-append (some (busy h a.statement)) ops (finalize a.statement ∷ [])
      ∙ ap (λ p. runs p (finalize a.statement ∷ [])) (s h)
      ∙ finalize-idle h a.statement)

-- What a call of `query` leaves, if its fuel is enough.
abbrev Leaves : Phase → ℕ → Option (Database × Call Reply) → Type 0
Leaves start h none = Unit {0}
Leaves start h (some (d, r)) = (d.handle ≡ some h) × Leads start d (idle h)

after_steps-Leaves :
    (start : Phase) (h : ℕ) (a : Answers) (d : Database) (x : Option (List Op × Ended))
    → d.handle ≡ some h
    → Leads start d (busy h a.statement)
    → StepsStay a x
    → Leaves start h (after_steps a d x)
after_steps-Leaves start h a d none e l s = tt
after_steps-Leaves start h a d (some (ops, no_table)) e l s = absurd s
after_steps-Leaves start h a d (some (ops, broke)) e l s = (e, Leads-finalized start h d a ops l s)
after_steps-Leaves start h a d (some (ops, finished rs)) e l s =
    (e, Leads-finalized start h d a ops l s)

after_binds-Leaves :
    (start : Phase) (h : ℕ) (a : Answers) (d : Database) (fuel : ℕ) (x : List Op × Bool)
    → d.handle ≡ some h
    → Leads start d (busy h a.statement)
    → StaysBusy a x.0
    → RowsHaveColumns a
    → Leaves start h (after_binds a d fuel x)
after_binds-Leaves start h a d fuel (ops, false) e l s k = (e, Leads-finalized start h d a ops l s)
after_binds-Leaves start h a d fuel (ops, true) e l s k =
    after_steps-Leaves start h a (logged d ops) (step_all a fuel 0) e
      (Leads-logged start (busy h a.statement) (busy h a.statement) d ops l (s h))
      (step_all-StepsStay a fuel 0 k)

-- The database is in order after the call.
abbrev Ordered : Phase → Option (Database × Call Reply) → Type 0
Ordered start none = Unit {0}
Ordered start (some (d, r)) = IsOrderly start d

Leaves-Ordered :
    (start : Phase) (h : ℕ) (x : Option (Database × Call Reply))
    → Leaves start h x
    → Ordered start x
Leaves-Ordered start h none l = tt
Leaves-Ordered start h (some (d, r)) (e, l) = l ∙ ap (λ x. some (phase_of x)) (sym e)

prepare-advances :
    (h : ℕ) (sql : Text) (a : Answers) (b : Bool)
    → (a.prepared == 0) ≡ b
    → advance (idle h) (prepare h sql a.prepared a.statement)
      ≡ some (if b then busy h a.statement else idle h)
prepare-advances h sql a b e =
    ap (λ x. if x then some (if a.prepared == 0 then busy h a.statement else idle h) else none)
      (same_handle h)
    ∙ ap (λ x. some (if x then busy h a.statement else idle h)) e

after_prepare-Leaves :
    (start : Phase) (h : ℕ) (a : Answers) (d : Database) (fuel : ℕ) (sql : Text) (ps : List Param)
    → d.handle ≡ some h
    → Leads start d (idle h)
    → RowsHaveColumns a
    → Leaves start h
        (after_prepare a (logged d (prepare h sql a.prepared a.statement ∷ [])) fuel ps)
after_prepare-Leaves start h a d fuel sql ps e l k =
    let call = prepare h sql a.prepared a.statement in
    let p = logged d (call ∷ []) in
    let failing : Option (Database × Call Reply) = some (p, returns (failure (a.message p.log))) in
    let going = after_binds a p fuel (bind_all a 0 ps) in
    Bool-split (λ b. Leaves start h (if b then going else failing)) (a.prepared == 0)
      (λ f.
        (after_binds-Leaves start h a p fuel (bind_all a 0 ps) e
          (Leads-logged start (idle h) (busy h a.statement) d (call ∷ []) l
            (prepare-advances h sql a true f))
          (bind_all-StaysBusy a 0 ps) k))
      (λ f. (
        e,
        Leads-logged start (idle h) (idle h) d (call ∷ []) l (prepare-advances h sql a false f),
      ))

query_with-Ordered :
    (start : Phase) (a : Answers) (d : Database) (fuel : ℕ) (sql : Text) (ps : List Param)
    (x : Option ℕ)
    → d.handle ≡ x
    → IsOrderly start d
    → RowsHaveColumns a
    → Ordered start (query_with a d x fuel sql ps)
query_with-Ordered start a d fuel sql ps none e o k = o
query_with-Ordered start a d fuel sql ps (some h) e o k =
    Leaves-Ordered start h
      (after_prepare a (logged d (prepare h sql a.prepared a.statement ∷ [])) fuel ps)
      (after_prepare-Leaves start h a d fuel sql ps e (o ∙ ap (λ x. some (phase_of x)) e) k)

pub query-Ordered :
    (start : Phase) (a : Answers) (d : Database) (fuel : ℕ) (sql : Text) (ps : List Param)
    → IsOrderly start d
    → RowsHaveColumns a
    → Ordered start (query a d fuel sql ps)
unfolding query
query-Ordered start a d fuel sql ps o k = query_with-Ordered start a d fuel sql ps d.handle refl o k

close-advances : (h : ℕ) → advance (idle h) (close_handle h) ≡ some shut
close-advances h = ap (λ x. if x then some shut else none) (same_handle h)

close_with-IsOrderly :
    (start : Phase) (d : Database) (x : Option ℕ)
    → d.handle ≡ x
    → IsOrderly start d
    → IsOrderly start (close_with d x)
close_with-IsOrderly start d none e o = o
close_with-IsOrderly start d (some h) e o =
    Leads-logged start (idle h) shut d (close_handle h ∷ []) (o ∙ ap (λ x. some (phase_of x)) e)
      (close-advances h)

close-IsOrderly : (start : Phase) (d : Database) → IsOrderly start d → IsOrderly start (close d)
unfolding close
close-IsOrderly start d o = close_with-IsOrderly start d d.handle refl o

open-IsOrderly :
    (result : ℕ) (made : Option ℕ) → IsOrderly (phase_of made) (open_database result made).0
unfolding open_database close
open-IsOrderly result none = refl
open-IsOrderly result (some h) =
    let d : Database = record { handle = some h; log = [] } in
    let good : Database × Call (Unit {0}) = (d, returns tt) in
    let bad : Database × Call (Unit {0}) = (close d, throws (Error.system result)) in
    Bool-split (λ b. IsOrderly (idle h) (if b then good else bad).0) (result == 0) (λ e. refl)
      (λ e. (close-IsOrderly (idle h) d refl))

-- A database, by what is done with it from its making on.
pub data Reached : Phase → Database → Type 0 where
  opened : (result : ℕ) (made : Option ℕ) → Reached (phase_of made) (open_database result made).0
  closed : {start : Phase} {d : Database} → Reached start d → Reached start (close d)
  queried :
      {start : Phase} {d e : Database} (a : Answers) (fuel : ℕ) (sql : Text) (ps : List Param)
      (r : Call Reply)
      → RowsHaveColumns a
      → query a d fuel sql ps ≡ some (e, r)
      → Reached start d
      → Reached start e

-- Whatever is done with a database and whatever SQLite answers, if it gives no rows for statements without
-- columns: from the opening on, SQLite was called only with the handle that it gave, and as long as that
-- was not closed; every statement that was made was used alone and finalized once, before the next one
-- was made and before the handle was closed; and the database has the handle exactly if it is open.
pub reached-IsOrderly : (start : Phase) (d : Database) → Reached start d → IsOrderly start d
reached-IsOrderly start d (opened result made) = open-IsOrderly result made
reached-IsOrderly start d (closed {d = c} r) = close-IsOrderly start c (reached-IsOrderly start c r)
reached-IsOrderly start d (queried {d = c} a fuel sql ps r k e s) =
    subst (Ordered start) e (query-Ordered start a c fuel sql ps (reached-IsOrderly start c s) k)
