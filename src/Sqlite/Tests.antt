-- ===== src/Sqlite/Tests.antt =====
-- RosaServer/sqlite.cpp: a query and what it leaves, and the theorems at it.
use rosa_server.Base.{ℕ, zero, suc, ◌≡◌, refl, true, List, [], ◌∷◌, some, codes, returns, arith}
use rosa_server.Base.Int.{pos}
use rosa_server.Sqlite.{
  Param, number_param, text_param, other_param, as_double, as_text, Op, prepare, bind, step,
  finalize, close_handle, Column, integer, bytes, Stepped, done, row, Answers, integer_value,
  text_value, failure, rows, Database, close, open_database, query, bind_all, step_all,
}
use rosa_server.Sqlite.Orderly.{RowsHaveColumns, idle}
use rosa_server.Sqlite.Reached.{Reached, opened, closed, queried, IsOrderly, reached-IsOrderly}
use rosa_server.Sqlite.{Reply}
use rosa_server.Sqlite.Results.{outcome}
use rosa_server.Sqlite.Rows.{AllBound, Answered, calls_of, query_returns}

abbrev first_row : ℕ → Column
first_row zero = integer (pos 5)
first_row (suc i) = bytes (some (codes "x"))

abbrev one_row_then_done : ℕ → Stepped
one_row_then_done zero = row first_row
one_row_then_done (suc i) = done

abbrev one_row : Answers
one_row = record {
  prepared = 0;
  statement = some 3;
  binds = λ i. 0;
  columns = 2;
  steps = one_row_then_done;
  message = λ ops. codes "not an error";
  error_text = λ n. codes "SQL logic error";
  changes = λ ops. pos 0;
}

one_row-RowsHaveColumns : RowsHaveColumns one_row
one_row-RowsHaveColumns i c e = refl

abbrev database : Database
database = (open_database 0 (some 7)).0

abbrev arguments : List Param
arguments = number_param 9 ∷ other_param ∷ text_param (codes "a") ∷ []

abbrev calls : List Op
calls =
    prepare 7 (codes "q") 0 (some 3)
    ∷ bind (some 3) 1 (as_double 9)
    ∷ bind (some 3) 3 (as_text (codes "a"))
    ∷ step (some 3)
    ∷ step (some 3)
    ∷ finalize (some 3)
    ∷ []

-- A closed database gives the text of SQLITE_ERROR, and SQLite is not called.
closed_query :
    outcome (query one_row (close database) 5 (codes "q") arguments)
    ≡ some (close_handle 7 ∷ [], returns (failure (codes "SQL logic error")))
unfolding query open_database close
closed_query = refl

query_given :
    outcome (query one_row (record { handle = some 7; log = [] }) 2 (codes "q") arguments)
    ≡ some (calls, returns (rows ((integer_value (pos 5) ∷ text_value (codes "x") ∷ []) ∷ [])))
unfolding query bind_all step_all
query_given = refl

query_returns_example :
    (binds : List Op) × (r : Reply) × (outcome
        (query one_row (record { handle = some 7; log = [] }) 2 (codes "q") arguments)
      ≡ some (calls_of one_row 7 (codes "q") binds (first_row ∷ []), returns r))
    × AllBound (some 3) 1 arguments binds
    × Answered one_row
        (calls_of one_row 7 (codes "q") binds (first_row ∷ []))
        (first_row ∷ [])
        true
        r
query_returns_example =
    query_returns one_row (record { handle = some 7; log = [] }) 7 2 (codes "q") arguments
      (first_row ∷ []) true refl refl (λ i. refl) one_row-RowsHaveColumns (refl, refl) (omega arith)

abbrev queried_once : Database
queried_once = record { handle = some 7; log = calls }

query_reached : Reached (idle 7) queried_once
unfolding query open_database bind_all step_all
query_reached =
    queried one_row 2 (codes "q") arguments
      (returns (rows ((integer_value (pos 5) ∷ text_value (codes "x") ∷ []) ∷ [])))
      one_row-RowsHaveColumns refl (opened 0 (some 7))

reached-IsOrderly_example : IsOrderly (idle 7) (close queried_once)
reached-IsOrderly_example = reached-IsOrderly (idle 7) (close queried_once) (closed query_reached)
