-- ===== src/Sqlite/Rows.antt =====
-- RosaServer/sqlite.cpp: the arguments that SQLite gets and the rows that Lua gets, stated apart from the code.
use rosa_server.Base.{
  ℕ, zero, suc, ◌+◌, ◌≡◌, ◌<◌, refl, ap, ◌∙◌, Bool, Bool-split, true, false, List, [], ◌∷◌, ◌++◌,
  map, length, get_elem?, none, some, if◌then◌else◌, ◌==◌, Text, returns, arith,
}
use rosa_server.Base.Int.{ℤ}
use rosa_server.Sqlite.{
  Param, nil_param, text_param, number_param, boolean_param, other_param, Statement, Op, prepare,
  bind, finalize, as_null, as_text, as_double, as_int, Column, integer, float, bytes, null_column,
  Answers, Value, nil_value, integer_value, float_value, text_value, Reply, failure, rows, changed,
  Database, value_of, read_columns, query,
}
use rosa_server.Sqlite.Orderly.{RowsHaveColumns}
use rosa_server.Sqlite.Results.{
  bindings, Gives, row_values, steps_for, all_calls, expected, outcome, query_answers,
}

-- What an argument is bound as at a position: a nil as NULL, a text as TEXT, a number as a double, true and
-- false as 1 and 0, and nothing else at all.
pub data BoundTo (s : Statement) (i : ℕ) : Param → List Op → Type 0 where
  null_bound : BoundTo s i nil_param (bind s i as_null ∷ [])
  text_bound : {t : Text} → BoundTo s i (text_param t) (bind s i (as_text t) ∷ [])
  number_bound : {x : ℕ} → BoundTo s i (number_param x) (bind s i (as_double x) ∷ [])
  true_bound : BoundTo s i (boolean_param true) (bind s i (as_int 1) ∷ [])
  false_bound : BoundTo s i (boolean_param false) (bind s i (as_int 0) ∷ [])
  unbound : BoundTo s i other_param []

-- The arguments, by their positions from i on.
pub data AllBound (s : Statement) : ℕ → List Param → List Op → Type 0 where
  none_left : {i : ℕ} → AllBound s i [] []
  one_more :
      {i : ℕ} {p : Param} {ps : List Param} {call calls : List Op}
      → BoundTo s i p call
      → AllBound s (suc i) ps calls
      → AllBound s i (p ∷ ps) (call ++ calls)

-- What Lua gets for a column.
pub data Stands : Column → Value → Type 0 where
  number : {n : ℤ} → Stands (integer n) (integer_value n)
  real : {x : ℕ} → Stands (float x) (float_value x)
  text_of : {t : Text} → Stands (bytes (some t)) (text_value t)
  no_bytes : Stands (bytes none) (text_value [])
  nothing : Stands null_column nil_value

-- A row of Lua has a value for each of the first n columns, in their places.
pub record IsRow (n : ℕ) (c : ℕ → Column) (vs : List Value) : Type 0 where
  pub each_column : length vs ≡ n
  pub in_place : (i : ℕ) → i < n → (v : Value) × (get_elem? vs i ≡ some v) × Stands (c i) v

pub data AllRows (n : ℕ) : List (ℕ → Column) → List (List Value) → Type 0 where
  no_rows : AllRows n [] []
  one_row :
      {c : ℕ → Column} {cs : List (ℕ → Column)} {vs : List Value} {rs : List (List Value)}
      → IsRow n c vs
      → AllRows n cs rs
      → AllRows n (c ∷ cs) (vs ∷ rs)

-- What is returned behind the calls: the rows; without columns the changes; behind a failure its message.
pub data Answered (a : Answers) (log : List Op) (cs : List (ℕ → Column))
    : Bool → Reply → Type 0 where
  with_rows :
      {rs : List (List Value)}
      → (a.columns == 0) ≡ false
      → AllRows a.columns cs rs
      → Answered a log cs true (rows rs)
  with_changes : (a.columns == 0) ≡ true → Answered a log cs true (changed (a.changes log))
  with_message : Answered a log cs false (failure (a.message log))

bindings-AllBound :
    (a : Answers) (i : ℕ) (ps : List Param) → AllBound a.statement (suc i) ps (bindings a i ps)
bindings-AllBound a i [] = none_left
bindings-AllBound a i (nil_param ∷ ps) = one_more null_bound (bindings-AllBound a (suc i) ps)
bindings-AllBound a i (text_param t ∷ ps) = one_more text_bound (bindings-AllBound a (suc i) ps)
bindings-AllBound a i (number_param x ∷ ps) = one_more number_bound (bindings-AllBound a (suc i) ps)
bindings-AllBound a i (boolean_param true ∷ ps) =
    one_more true_bound (bindings-AllBound a (suc i) ps)
bindings-AllBound a i (boolean_param false ∷ ps) =
    one_more false_bound (bindings-AllBound a (suc i) ps)
bindings-AllBound a i (other_param ∷ ps) = one_more unbound (bindings-AllBound a (suc i) ps)

value_of-Stands : (c : Column) → Stands c (value_of c)
value_of-Stands (integer n) = number
value_of-Stands (float x) = real
value_of-Stands (bytes none) = no_bytes
value_of-Stands (bytes (some t)) = text_of
value_of-Stands null_column = nothing

length-read_columns : (c : ℕ → Column) (i n : ℕ) → length (read_columns c i n) ≡ n
length-read_columns c i zero = refl
length-read_columns c i (suc n) = ap suc (length-read_columns c (suc i) n)

read_columns-place :
    (c : ℕ → Column) (i n j : ℕ)
    → j < n
    → get_elem? (read_columns c i n) j ≡ some (value_of (c (i + j)))
read_columns-place c i zero j l = absurd (omega (arith, l))
read_columns-place c i (suc n) zero l =
    let e : i ≡ i + 0 = omega arith in ap (λ k. some (value_of (c k))) e
read_columns-place c i (suc n) (suc j) l =
    let e : suc i + j ≡ i + suc j = omega arith in
    read_columns-place c (suc i) n j (omega (arith, l)) ∙ ap (λ k. some (value_of (c k))) e

read_columns-IsRow : (n : ℕ) (c : ℕ → Column) → IsRow n c (read_columns c 0 n)
read_columns-IsRow n c = record {
  each_column = length-read_columns c 0 n;
  in_place = λ i l.
      let e : 0 + i ≡ i = omega arith in
      (
        value_of (c i),
        read_columns-place c 0 n i l ∙ ap (λ k. some (value_of (c k))) e,
        value_of-Stands (c i),
      );
}

values-AllRows :
    (a : Answers) (cs : List (ℕ → Column)) → AllRows a.columns cs (map (row_values a) cs)
values-AllRows a [] = no_rows
values-AllRows a (c ∷ cs) = one_row (read_columns-IsRow a.columns c) (values-AllRows a cs)

expected-Answered :
    (a : Answers) (log : List Op) (cs : List (ℕ → Column)) (last : Bool)
    → Answered a log cs last (expected a log cs last)
expected-Answered a log cs false = with_message
expected-Answered a log cs true =
    Bool-split
      (λ b.
        (a.columns == 0) ≡ b
        → Answered a log cs true
            (if b then changed (a.changes log) else rows (map (row_values a) cs)))
      (a.columns == 0) (λ _ e. with_changes e) (λ _ e. with_rows e (values-AllRows a cs)) refl

-- The calls of a query: a statement is prepared, the arguments are bound, it is stepped once for each row
-- and once more, and finalized.
abbrev pub calls_of : Answers → ℕ → Text → List Op → List (ℕ → Column) → List Op
calls_of a h sql binds cs =
    prepare h sql a.prepared a.statement ∷ binds ++ (steps_for a cs ++ finalize a.statement ∷ [])

-- If the statement is prepared, every binding succeeds, and SQLite gives some rows and is then done or
-- fails, no rows if there are no columns, then fuel for these rows and one more is enough, and: every
-- argument is bound at its position from 1 on, as its type says, and nothing at the positions of others
-- than nil, texts, numbers and Booleans; the statement is stepped until it gives no more row and finalized;
-- what is returned is, for each row in order, the values of its columns in order, each of the type of the
-- column, or without columns the number of changes, or, if it failed, nil and the message.
pub query_returns :
    (a : Answers) (d : Database) (h fuel : ℕ) (sql : Text) (ps : List Param)
    (cs : List (ℕ → Column)) (last : Bool)
    → d.handle ≡ some h
    → a.prepared ≡ 0
    → ((i : ℕ) → a.binds i ≡ 0)
    → RowsHaveColumns a
    → Gives a 0 cs last
    → length cs < fuel
    → (binds : List Op) × (r : Reply) × (outcome (query a d fuel sql ps)
        ≡ some (d.log ++ calls_of a h sql binds cs, returns r))
      × AllBound a.statement 1 ps binds
      × Answered a (d.log ++ calls_of a h sql binds cs) cs last r
query_returns a d h fuel sql ps cs last e p b k g l =
    let log = d.log ++ all_calls a h sql ps cs in
    (
      bindings a 0 ps,
      expected a log cs last,
      query_answers a d h fuel sql ps cs last e p b k g l,
      bindings-AllBound a 0 ps,
      expected-Answered a log cs last,
    )
