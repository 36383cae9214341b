-- ===== src/Sqlite/Orderly.antt =====
-- RosaServer/sqlite.cpp: the order in which SQLite is called.
use rosa_server.Base.{
  ℕ, zero, suc, ◌≡◌, refl, sym, ap, subst, ◌∙◌, Bool, Bool-split, true, false, List, [], ◌∷◌, ◌++◌,
  Option, none, some, if◌then◌else◌, ◌==◌, arith,
}
use rosa_server.Sqlite.{
  Param, Bound, Statement, Op, prepare, bind, step, finalize, close_handle, Column, Stepped, done,
  row, failed, Answers, bound_as, bind_one, bind_all, Ended, finished, broke, no_table,
  read_columns, add_row, one_step, step_all,
}

-- Without a handle; with one; or with a statement that is not finalized.
pub data Phase : Type 0 where
  shut : Phase
  idle : ℕ → Phase
  busy : ℕ → Statement → Phase

abbrev same_statement : Statement → Statement → Bool
same_statement none none = true
same_statement (some s) (some t) = s == t
same_statement s t = false

-- SQLite is called with the handle or the statement that is open; a statement is made only if none is,
-- and the handle closed only then.
abbrev pub advance : Phase → Op → Option Phase
advance (idle h) (prepare k sql result s) =
    if h == k then some (if result == 0 then busy h s else idle h) else none
advance (idle h) (close_handle k) = if h == k then some shut else none
advance (busy h s) (bind t i b) = if same_statement s t then some (busy h s) else none
advance (busy h s) (step t) = if same_statement s t then some (busy h s) else none
advance (busy h s) (finalize t) = if same_statement s t then some (idle h) else none
advance p op = none

abbrev pub advance_if : Option Phase → Op → Option Phase
advance_if none op = none
advance_if (some p) op = advance p op

abbrev pub runs : Option Phase → List Op → Option Phase
runs p [] = p
runs p (op ∷ ops) = runs (advance_if p op) ops

pub runs-append : (p : Option Phase) (xs ys : List Op) → runs p (xs ++ ys) ≡ runs (runs p xs) ys
runs-append p [] ys = refl
runs-append p (x ∷ xs) ys = runs-append (advance_if p x) xs ys

same_statement_self : (s : Statement) → same_statement s s ≡ true
same_statement_self none = refl
same_statement_self (some s) = ground arith

pub same_handle : (h : ℕ) → (h == h) ≡ true
same_handle h = ground arith

bind-busy :
    (h : ℕ) (s : Statement) (i : ℕ) (b : Bound) → advance (busy h s) (bind s i b) ≡ some (busy h s)
bind-busy h s i b = ap (λ x. if x then some (busy h s) else none) (same_statement_self s)

step-busy : (h : ℕ) (s : Statement) → advance (busy h s) (step s) ≡ some (busy h s)
step-busy h s = ap (λ x. if x then some (busy h s) else none) (same_statement_self s)

pub finalize-idle : (h : ℕ) (s : Statement) → advance (busy h s) (finalize s) ≡ some (idle h)
finalize-idle h s = ap (λ x. if x then some (idle h) else none) (same_statement_self s)

-- Calls that leave the statement open.
abbrev pub StaysBusy : Answers → List Op → Type 0
StaysBusy a ops = (h : ℕ) → runs (some (busy h a.statement)) ops ≡ some (busy h a.statement)

bind_one-StaysBusy :
    (a : Answers) (index : ℕ) (b : Option Bound) (rest : List Op × Bool)
    → StaysBusy a rest.0
    → StaysBusy a (bind_one a index b rest).0
bind_one-StaysBusy a index none rest s = s
bind_one-StaysBusy a index (some b) rest s =
    let call = bind a.statement index b in
    let good : List Op × Bool = (call ∷ rest.0, rest.1) in
    let bad : List Op × Bool = (call ∷ [], false) in
    Bool-split (λ x. StaysBusy a (if x then good else bad).0) (a.binds index == 0)
      (λ e. (λ h. ap (λ p. runs p rest.0) (bind-busy h a.statement index b) ∙ s h))
      (λ e. (λ h. bind-busy h a.statement index b))

pub bind_all-StaysBusy :
    (a : Answers) (index : ℕ) (ps : List Param) → StaysBusy a (bind_all a index ps).0
unfolding bind_all
bind_all-StaysBusy a index [] = λ h. refl
bind_all-StaysBusy a index (p ∷ ps) =
    bind_one-StaysBusy a (suc index) (bound_as p) (bind_all a (suc index) ps)
      (bind_all-StaysBusy a (suc index) ps)

-- A statement without columns gives no rows.
abbrev pub RowsHaveColumns : Answers → Type 0
RowsHaveColumns a = (i : ℕ) (c : ℕ → Column) → a.steps i ≡ row c → (a.columns == 0) ≡ false

-- The loop over the rows leaves the statement open, and its rows are put into a table.
abbrev pub StepsStay : Answers → Option (List Op × Ended) → Type 0
StepsStay a none = Unit {0}
StepsStay a (some (ops, no_table)) = ⊥
StepsStay a (some (ops, broke)) = StaysBusy a ops
StepsStay a (some (ops, finished rs)) = StaysBusy a ops

one_step-StaysBusy : (a : Answers) → StaysBusy a (step a.statement ∷ [])
one_step-StaysBusy a h = step-busy h a.statement

more_steps-StaysBusy :
    (a : Answers) (ops : List Op) → StaysBusy a ops → StaysBusy a (step a.statement ∷ ops)
more_steps-StaysBusy a ops s h = ap (λ p. runs p ops) (step-busy h a.statement) ∙ s h

add_row-StepsStay :
    (a : Answers) (c : ℕ → Column) (rest : Option (List Op × Ended))
    → (a.columns == 0) ≡ false
    → StepsStay a rest
    → StepsStay a (add_row a c rest)
add_row-StepsStay a c none e s = tt
add_row-StepsStay a c (some (ops, no_table)) e s = absurd s
add_row-StepsStay a c (some (ops, broke)) e s =
    subst
      (λ b. StepsStay a (
        if b then some (step a.statement ∷ [], no_table) else some (step a.statement ∷ ops, broke)))
      (sym e) (more_steps-StaysBusy a ops s)
add_row-StepsStay a c (some (ops, finished rs)) e s =
    subst
      (λ b. StepsStay a (
        if b
        then some (step a.statement ∷ [], no_table)
        else some (step a.statement ∷ ops, finished (read_columns c 0 a.columns ∷ rs))))
      (sym e) (more_steps-StaysBusy a ops s)

one_step-StepsStay :
    (a : Answers) (i : ℕ) (s : Stepped) (rest : Option (List Op × Ended))
    → a.steps i ≡ s
    → RowsHaveColumns a
    → StepsStay a rest
    → StepsStay a (one_step a s rest)
one_step-StepsStay a i done rest e k r = one_step-StaysBusy a
one_step-StepsStay a i failed rest e k r = one_step-StaysBusy a
one_step-StepsStay a i (row c) rest e k r = add_row-StepsStay a c rest (k i c e) r

pub step_all-StepsStay :
    (a : Answers) (fuel i : ℕ) → RowsHaveColumns a → StepsStay a (step_all a fuel i)
unfolding step_all
step_all-StepsStay a zero i k = tt
step_all-StepsStay a (suc fuel) i k =
    one_step-StepsStay a i (a.steps i) (step_all a fuel (suc i)) refl k
      (step_all-StepsStay a fuel (suc i) k)
