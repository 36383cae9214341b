-- ===== src/Sqlite.antt =====
-- RosaServer/sqlite.cpp and RosaServer/sqlite.h: a database, with the calls of SQLite that were made for it.
-- What SQLite answers is an argument; 0 is SQLITE_OK and 1 SQLITE_ERROR. The bytes of a `double` are a
-- pattern of bits.
pub mod Orderly
pub mod Reached
pub mod Results
pub mod Rows
mod Tests
use rosa_server.Base.{
  ℕ, zero, suc, Bool, true, false, List, [], ◌∷◌, ◌++◌, Option, none, some, if◌then◌else◌, ◌==◌,
  Text, Call, returns, throws, Error,
}
use rosa_server.Base.Int.{ℤ}

-- An argument of `query`, by the type that it has in Lua; `other` stands for tables, functions and such.
pub data Param : Type 0 where
  nil_param : Param
  text_param : Text → Param
  number_param : ℕ → Param
  boolean_param : Bool → Param
  other_param : Param

pub data Bound : Type 0 where
  as_null : Bound
  as_text : Text → Bound
  as_double : ℕ → Bound
  as_int : ℕ → Bound

-- A statement, which is null for a text without any SQL in it.
abbrev pub Statement : Type 0
Statement = Option ℕ

-- A call of SQLite; that of `prepare` with the result and the statement that it gave.
pub data Op : Type 0 where
  prepare : ℕ → Text → ℕ → Statement → Op
  bind : Statement → ℕ → Bound → Op
  step : Statement → Op
  finalize : Statement → Op
  close_handle : ℕ → Op

-- A column of a row by its type; `bytes none` is a text or blob without an address.
pub data Column : Type 0 where
  integer : ℤ → Column
  float : ℕ → Column
  bytes : Option Text → Column
  null_column : Column

pub data Stepped : Type 0 where
  done : Stepped
  row : (ℕ → Column) → Stepped
  failed : Stepped

-- What SQLite answers in one `query`: what preparing gives, what binding each index gives, the number of
-- columns, what each step gives, the message behind some calls, the text of an error, the changes.
pub record Answers : Type 0 where
  pub prepared : ℕ
  pub statement : Statement
  pub binds : ℕ → ℕ
  pub columns : ℕ
  pub steps : ℕ → Stepped
  pub message : List Op → Text
  pub error_text : ℕ → Text
  pub changes : List Op → ℤ

pub data Value : Type 0 where
  nil_value : Value
  integer_value : ℤ → Value
  float_value : ℕ → Value
  text_value : Text → Value

-- The two values that `query` returns: nil and a message, or rows or a number and nil.
pub data Reply : Type 0 where
  failure : Text → Reply
  rows : List (List Value) → Reply
  changed : ℤ → Reply

pub record Database : Type 0 where
  pub handle : Option ℕ
  pub log : List Op

abbrev pub logged : Database → List Op → Database
logged d ops = record d { log = d.log ++ ops }

abbrev pub close_with : Database → Option ℕ → Database
close_with d none = d
close_with d (some h) = record { handle = none; log = d.log ++ close_handle h ∷ [] }

-- `close`, which the destructor calls too.
unfoldable pub close : Database → Database
close d = close_with d d.handle

-- The constructor: `result` and `made` are what `sqlite3_open` gives, `none` a handle that is null.
unfoldable pub open_database : ℕ → Option ℕ → Database × Call (Unit {0})
open_database result none = (record { handle = none; log = [] }, throws (Error.system result))
open_database result (some h) =
    let d : Database = record { handle = some h; log = [] } in
    if result == 0 then (d, returns tt) else (close d, throws (Error.system result))

-- What is bound for an argument, if anything.
abbrev pub bound_as : Param → Option Bound
bound_as nil_param = some as_null
bound_as (text_param t) = some (as_text t)
bound_as (number_param bits) = some (as_double bits)
bound_as (boolean_param b) = some (as_int (if b then 1 else 0))
bound_as other_param = none

-- The call for one argument, and what comes behind it: the calls, and whether all went well.
abbrev pub bind_one : Answers → ℕ → Option Bound → List Op × Bool → List Op × Bool
bind_one a index none rest = rest
bind_one a index (some b) rest =
    if a.binds index == 0
    then (bind a.statement index b ∷ rest.0, rest.1)
    else (bind a.statement index b ∷ [], false)

-- The loop over the arguments.
unfoldable pub bind_all : Answers → ℕ → List Param → List Op × Bool
bind_all a index [] = ([], true)
bind_all a index (p ∷ ps) = bind_one a (suc index) (bound_as p) (bind_all a (suc index) ps)

abbrev pub value_of : Column → Value
value_of (integer n) = integer_value n
value_of (float bits) = float_value bits
value_of (bytes none) = text_value []
value_of (bytes (some t)) = text_value t
value_of null_column = nil_value

-- The values of the columns from an index on.
abbrev pub read_columns : (ℕ → Column) → ℕ → ℕ → List Value
read_columns c i zero = []
read_columns c i (suc n) = value_of (c i) ∷ read_columns c (suc i) n

-- How the loop over the rows ends. `rows` is no table if there are no columns, so adding to it fails.
pub data Ended : Type 0 where
  finished : List (List Value) → Ended
  broke no_table : Ended

abbrev pub with_row : List Value → Ended → Ended
with_row r (finished rs) = finished (r ∷ rs)
with_row r broke = broke
with_row r no_table = no_table

abbrev pub add_row : Answers → (ℕ → Column) → Option (List Op × Ended) → Option (List Op × Ended)
add_row a c none = none
add_row a c (some (ops, e)) =
    if a.columns == 0
    then some (step a.statement ∷ [], no_table)
    else some (step a.statement ∷ ops, with_row (read_columns c 0 a.columns) e)

abbrev pub one_step : Answers → Stepped → Option (List Op × Ended) → Option (List Op × Ended)
one_step a done rest = some (step a.statement ∷ [], finished [])
one_step a failed rest = some (step a.statement ∷ [], broke)
one_step a (row c) rest = add_row a c rest

-- The loop over the rows, a round of fuel for each step.
unfoldable pub step_all : Answers → ℕ → ℕ → Option (List Op × Ended)
step_all a zero i = none
step_all a (suc fuel) i = one_step a (a.steps i) (step_all a fuel (suc i))

-- The end of `query`, behind the calls that were made.
abbrev pub answer : Answers → Database → Ended → Database × Call Reply
answer a d broke = (d, returns (failure (a.message d.log)))
answer a d no_table = (d, throws Error.undefined_access)
answer a d (finished rs) =
    (d, returns (if a.columns == 0 then changed (a.changes d.log) else rows rs))

abbrev pub after_steps :
    Answers → Database → Option (List Op × Ended) → Option (Database × Call Reply)
after_steps a d none = none
after_steps a d (some (ops, no_table)) = some (answer a (logged d ops) no_table)
after_steps a d (some (ops, broke)) =
    some (answer a (logged d (ops ++ finalize a.statement ∷ [])) broke)
after_steps a d (some (ops, finished rs)) =
    some (answer a (logged d (ops ++ finalize a.statement ∷ [])) (finished rs))

abbrev pub after_binds : Answers → Database → ℕ → List Op × Bool → Option (Database × Call Reply)
after_binds a d fuel (ops, false) =
    let e = logged d (ops ++ finalize a.statement ∷ []) in
    some (e, returns (failure (a.message e.log)))
after_binds a d fuel (ops, true) = after_steps a (logged d ops) (step_all a fuel 0)

abbrev pub after_prepare : Answers → Database → ℕ → List Param → Option (Database × Call Reply)
after_prepare a d fuel arguments =
    if a.prepared == 0
    then after_binds a d fuel (bind_all a 0 arguments)
    else some (d, returns (failure (a.message d.log)))

abbrev pub query_with :
    Answers → Database → Option ℕ → ℕ → Text → List Param → Option (Database × Call Reply)
query_with a d none fuel sql arguments = some (d, returns (failure (a.error_text 1)))
query_with a d (some h) fuel sql arguments =
    after_prepare a (logged d (prepare h sql a.prepared a.statement ∷ [])) fuel arguments

-- `query`, with the rounds that its loop may take.
unfoldable pub query : Answers → Database → ℕ → Text → List Param → Option (Database × Call Reply)
query a d fuel sql arguments = query_with a d d.handle fuel sql arguments
