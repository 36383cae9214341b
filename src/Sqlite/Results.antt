-- ===== src/Sqlite/Results.antt =====
-- RosaServer/sqlite.cpp: what `query` returns.
use rosa_server.Base.{
  ℕ, zero, suc, ◌≡◌, refl, ap, ◌∙◌, Bool, true, false, List, [], ◌∷◌, ◌++◌, Option, none, some,
  if◌then◌else◌, ◌==◌, Text, Call, returns, arith,
}
use rosa_server.Sqlite.{
  Param, Bound, Op, prepare, bind, step, finalize, Column, done, row, failed, Answers, Reply,
  failure, Database, logged, bound_as, bind_one, bind_all, Ended, finished, broke, no_table,
  read_columns, add_row, one_step, step_all, after_steps, after_binds, query,
}
use rosa_server.Base.{map, length, ◌<◌, append_assoc}
use rosa_server.Sqlite.{Value, rows, changed, query_with}
use rosa_server.Sqlite.Orderly.{RowsHaveColumns}

-- The calls that bind the arguments, in their order and by their positions from 1 on; nothing is bound
-- for one that is no nil, text, number or Boolean.
abbrev pub binding : Answers → ℕ → Option Bound → List Op
binding a index none = []
binding a index (some b) = bind a.statement index b ∷ []

abbrev pub bindings : Answers → ℕ → List Param → List Op
bindings a index [] = []
bindings a index (p ∷ ps) = binding a (suc index) (bound_as p) ++ bindings a (suc index) ps

-- From a step on, SQLite gives these rows, and then it is done, or fails.
abbrev pub Gives : Answers → ℕ → List (ℕ → Column) → Bool → Type 0
Gives a i [] true = a.steps i ≡ done
Gives a i [] false = a.steps i ≡ failed
Gives a i (c ∷ cs) last = (a.steps i ≡ row c) × Gives a (suc i) cs last

abbrev pub row_values : Answers → (ℕ → Column) → List Value
row_values a c = read_columns c 0 a.columns

-- A step for each row, and one more.
abbrev pub steps_for : Answers → List (ℕ → Column) → List Op
steps_for a [] = step a.statement ∷ []
steps_for a (c ∷ cs) = step a.statement ∷ steps_for a cs

abbrev pub all_calls : Answers → ℕ → Text → List Param → List (ℕ → Column) → List Op
all_calls a h sql ps cs =
    prepare h sql a.prepared a.statement ∷ bindings a 0 ps
    ++ (steps_for a cs ++ finalize a.statement ∷ [])

-- What is returned behind these calls.
abbrev pub expected : Answers → List Op → List (ℕ → Column) → Bool → Reply
expected a log cs true =
    if a.columns == 0 then changed (a.changes log) else rows (map (row_values a) cs)
expected a log cs false = failure (a.message log)

abbrev ended : Answers → List (ℕ → Column) → Bool → Ended
ended a cs true = finished (map (row_values a) cs)
ended a cs false = broke

bind_one-binds :
    (a : Answers) (index : ℕ) (b : Option Bound) (ops : List Op)
    → a.binds index ≡ 0
    → bind_one a index b (ops, true) ≡ (binding a index b ++ ops, true)
bind_one-binds a index none ops e = refl
bind_one-binds a index (some b) ops e =
    let call = bind a.statement index b in
    let good : List Op × Bool = (call ∷ ops, true) in
    let bad : List Op × Bool = (call ∷ [], false) in ap (λ n. if n == 0 then good else bad) e

bind_all-binds :
    (a : Answers) (index : ℕ) (ps : List Param)
    → ((i : ℕ) → a.binds i ≡ 0)
    → bind_all a index ps ≡ (bindings a index ps, true)
unfolding bind_all
bind_all-binds a index [] e = refl
bind_all-binds a index (p ∷ ps) e =
    ap (bind_one a (suc index) (bound_as p)) (bind_all-binds a (suc index) ps e)
    ∙ bind_one-binds a (suc index) (bound_as p) (bindings a (suc index) ps) (e (suc index))

add_row-adds :
    (a : Answers) (c : ℕ → Column) (cs : List (ℕ → Column)) (last : Bool)
    → (a.columns == 0) ≡ false
    → add_row a c (some (steps_for a cs, ended a cs last))
      ≡ some (steps_for a (c ∷ cs), ended a (c ∷ cs) last)
add_row-adds a c cs true e =
    ap
      (λ b.
        if b
        then some (step a.statement ∷ [], no_table)
        else some (steps_for a (c ∷ cs), ended a (c ∷ cs) true))
      e
add_row-adds a c cs false e =
    ap
      (λ b.
        if b
        then some (step a.statement ∷ [], no_table)
        else some (steps_for a (c ∷ cs), ended a (c ∷ cs) false))
      e

-- With fuel for all rows and one step more, the loop ends.
step_all-ends :
    (a : Answers) (fuel i : ℕ) (cs : List (ℕ → Column)) (last : Bool)
    → length cs < fuel
    → RowsHaveColumns a
    → Gives a i cs last
    → step_all a fuel i ≡ some (steps_for a cs, ended a cs last)
unfolding step_all
step_all-ends a zero i cs last l k g = absurd (omega (arith, l))
step_all-ends a (suc fuel) i [] true l k g = ap (λ s. one_step a s (step_all a fuel (suc i))) g
step_all-ends a (suc fuel) i [] false l k g = ap (λ s. one_step a s (step_all a fuel (suc i))) g
step_all-ends a (suc fuel) i (c ∷ cs) last l k (e, g) =
    ap (λ s. one_step a s (step_all a fuel (suc i))) e
    ∙ ap (add_row a c) (step_all-ends a fuel (suc i) cs last (omega (arith, l)) k g)
    ∙ add_row-adds a c cs last (k i c e)

-- The calls that were made, and what was returned.
abbrev pub outcome : Option (Database × Call Reply) → Option (List Op × Call Reply)
outcome none = none
outcome (some (d, r)) = some (d.log, r)

after_steps-answers :
    (a : Answers) (d : Database) (ops : List Op) (cs : List (ℕ → Column)) (last : Bool)
    (log : List Op)
    → d.log ++ (ops ++ finalize a.statement ∷ []) ≡ log
    → outcome (after_steps a d (some (ops, ended a cs last)))
      ≡ some (log, returns (expected a log cs last))
after_steps-answers a d ops cs true log e = ap (λ l. some (l, returns (expected a l cs true))) e
after_steps-answers a d ops cs false log e = ap (λ l. some (l, returns (expected a l cs false))) e

-- If the statement is prepared, every binding succeeds, and SQLite gives some rows and is then done or
-- fails, no rows if there are no columns, then fuel for these rows and one more is enough, and: the
-- arguments are bound in their order, the statement is stepped until it gives no more row and finalized;
-- what is returned is the values of the rows, or without columns the number of changes, or, if it failed,
-- nil and the message.
pub query_answers :
    (a : Answers) (d : Database) (h fuel : ℕ) (sql : Text) (ps : List Param)
    (cs : List (ℕ → Column)) (last : Bool)
    → d.handle ≡ some h
    → a.prepared ≡ 0
    → ((i : ℕ) → a.binds i ≡ 0)
    → RowsHaveColumns a
    → Gives a 0 cs last
    → length cs < fuel
    → outcome (query a d fuel sql ps)
      ≡ some (
        d.log ++ all_calls a h sql ps cs,
        returns (expected a (d.log ++ all_calls a h sql ps cs) cs last),
      )
unfolding query
query_answers a d h fuel sql ps cs last e p b k g l =
    let call = prepare h sql a.prepared a.statement in
    let q = logged d (call ∷ []) in
    let bound = logged q (bindings a 0 ps) in
    let failing : Option (Database × Call Reply) = some (q, returns (failure (a.message q.log))) in
    let tail = steps_for a cs ++ finalize a.statement ∷ [] in
    ap (λ x. outcome (query_with a d x fuel sql ps)) e
    ∙ ap (λ n. outcome (if n == 0 then after_binds a q fuel (bind_all a 0 ps) else failing)) p
    ∙ ap (λ x. outcome (after_binds a q fuel x)) (bind_all-binds a 0 ps b)
    ∙ ap (λ x. outcome (after_steps a bound x)) (step_all-ends a fuel 0 cs last l k g)
    ∙ after_steps-answers a bound (steps_for a cs) cs last (d.log ++ all_calls a h sql ps cs) (
        append_assoc (d.log ++ call ∷ []) (bindings a 0 ps) tail
        ∙ append_assoc d.log (call ∷ []) (bindings a 0 ps ++ tail))
