-- ===== src/Members/Voice.antt =====
-- RosaServer/api.cpp: the frames of a voice. A row of `frames` has 2048 bytes and lies before the next one.
use rosa_server.Base.{
  ℕ, List, [], ◌∷◌, ◌++◌, length, take, drop, set, get_or, ltb, leb, if◌then◌else◌, Call, returns,
  throws, Error,
}

pub record Voice : Type 0 where
  pub frame_volume_levels : List ℕ
  pub frame_sizes : List ℕ
  pub frames : List (List ℕ)

abbrev pub row_size : ℕ
row_size = 2048

abbrev pub concat_rows : List (List ℕ) → List ℕ
concat_rows [] = []
concat_rows (row ∷ rows) = row ++ concat_rows rows

-- Bytes from the start of a row on; behind the last row nothing is defined.
abbrev pub read_rows : List ℕ → ℕ → Call (List ℕ)
read_rows bytes size =
    if leb size (length bytes) then returns (take size bytes) else throws Error.undefined_access

unfoldable pub get_frame : Voice → ℕ → Call (List ℕ)
get_frame v idx =
    if ltb 63 idx
    then throws Error.index_out_of_range
    else read_rows (concat_rows (drop idx v.frames)) (get_or v.frame_sizes idx 0)

-- `std::memcpy` to the start of a row.
abbrev pub overwrite : List ℕ → List ℕ → List ℕ
overwrite row bytes = bytes ++ drop (length bytes) row

abbrev pub row_at : List (List ℕ) → ℕ → List ℕ
row_at rows idx = get_or rows idx []

unfoldable pub set_frame : Voice → ℕ → List ℕ → ℕ → Voice × Call (Unit {0})
set_frame v idx frame volume_level = if ltb 63 idx then (v, throws Error.index_out_of_range) else (
  record {
    frame_volume_levels = set v.frame_volume_levels idx volume_level;
    frame_sizes = set v.frame_sizes idx (length frame);
    frames = set v.frames idx (overwrite (row_at v.frames idx) (take row_size frame));
  },
  returns tt,
)
