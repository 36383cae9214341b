-- ===== src/Members/Recorded.antt =====
-- RosaServer/api.cpp: the frame that is read from a voice is the one that was written, if it fits.
use rosa_server.Base.{
  drop_beyond, append_nil, get_or-set_ne, ℕ, zero, suc, ◌+◌, ◌≤◌, ◌<◌, ◌≡◌, ◌≢◌, refl, sym, ap, ◌∙◌,
  List, [], ◌∷◌, ◌++◌, length, length-append, length-take, take, drop, set, get_or, get_elem?, ltb,
  leb, arith, some, returns, take-append_length, take_within, take_beyond, get_elem?-set_self,
  get_elem?-set_other, get_elem?-lt, drop-set, true, false,
}
use rosa_server.Members.Voice.{
  Voice, row_size, concat_rows, read_rows, get_frame, overwrite, row_at, set_frame,
}

-- The arrays have their lengths.
pub record IsVoice (v : Voice) : Type 0 where
  pub sizes_length : length v.frame_sizes ≡ 64
  pub frames_length : length v.frames ≡ 64
  pub rows_length : (i : ℕ) (row : List ℕ) → get_elem? v.frames i ≡ some row → length row ≡ row_size

concat_rows-drop :
    (rows : List (List ℕ)) (i : ℕ) (row : List ℕ)
    → get_elem? rows i ≡ some row
    → concat_rows (drop i rows) ≡ row ++ concat_rows (drop (suc i) rows)
concat_rows-drop [] i row e = absurd (cc e)
concat_rows-drop (r ∷ rows) zero row e = ap (λ x. x ++ concat_rows rows) (cc e)
concat_rows-drop (r ∷ rows) (suc i) row e = concat_rows-drop rows i row e

get_or-get_elem? {ℓ} :
    {A : Type ℓ} (xs : List A) (i : ℕ) (d x : A) → get_elem? xs i ≡ some x → get_or xs i d ≡ x
get_or-get_elem? [] i d x e = absurd (cc e)
get_or-get_elem? (y ∷ xs) zero d x e = cc e
get_or-get_elem? (y ∷ xs) (suc i) d x e = get_or-get_elem? xs i d x e

read_rows-within :
    (bytes : List ℕ) (size : ℕ)
    → size ≤ length bytes
    → read_rows bytes size ≡ returns (take size bytes)
read_rows-within bytes size l = let h : leb size (length bytes) ≡ true = ground arith in rw h refl

get_frame_inside :
    (v : Voice) (idx : ℕ) (row : List ℕ)
    → idx ≤ 63
    → get_elem? v.frames idx ≡ some row
    → get_frame v idx
      ≡ read_rows (row ++ concat_rows (drop (suc idx) v.frames)) (get_or v.frame_sizes idx 0)
unfolding get_frame
get_frame_inside v idx row l e =
    let h : ltb 63 idx ≡ false = ground arith in
    rw h (ap (λ b. read_rows b (get_or v.frame_sizes idx 0)) (concat_rows-drop v.frames idx row e))

-- What is read of a row whose size is within the row.
get_frame_row :
    (v : Voice) (idx : ℕ) (row : List ℕ)
    → idx ≤ 63
    → get_elem? v.frames idx ≡ some row
    → get_or v.frame_sizes idx 0 ≤ length row
    → get_frame v idx ≡ returns (take (get_or v.frame_sizes idx 0) row)
get_frame_row v idx row l e k =
    let rest = concat_rows (drop (suc idx) v.frames) in
    let size = get_or v.frame_sizes idx 0 in
    get_frame_inside v idx row l e
    ∙ read_rows-within (row ++ rest) size (omega (arith, k, length-append row rest))
    ∙ ap returns (take_within size row rest k)

abbrev written : Voice → ℕ → List ℕ → ℕ → Voice
written v idx frame level = record {
  frame_volume_levels = set v.frame_volume_levels idx level;
  frame_sizes = set v.frame_sizes idx (length frame);
  frames = set v.frames idx (overwrite (row_at v.frames idx) (take row_size frame));
}

set_frame_inside :
    (v : Voice) (idx : ℕ) (frame : List ℕ) (level : ℕ)
    → idx ≤ 63
    → set_frame v idx frame level ≡ (written v idx frame level, returns tt)
unfolding set_frame
set_frame_inside v idx frame level l = let h : ltb 63 idx ≡ false = ground arith in rw h refl

written_size :
    (v : Voice) (idx : ℕ) (frame : List ℕ) (level : ℕ)
    → IsVoice v
    → idx ≤ 63
    → get_or (written v idx frame level).frame_sizes idx 0 ≡ length frame
written_size v idx frame level is l =
    get_or-get_elem? (set v.frame_sizes idx (length frame)) idx 0 (length frame)
      (get_elem?-set_self v.frame_sizes idx (length frame) (omega (arith, l, is.sizes_length)))

written_row :
    (v : Voice) (idx : ℕ) (frame : List ℕ) (level : ℕ)
    → IsVoice v
    → idx ≤ 63
    → get_elem? (written v idx frame level).frames idx
      ≡ some (overwrite (row_at v.frames idx) (take row_size frame))
written_row v idx frame level is l =
    get_elem?-set_self v.frames idx (overwrite (row_at v.frames idx) (take row_size frame))
      (omega (arith, l, is.frames_length))

row_at-length :
    (v : Voice) (idx : ℕ) → IsVoice v → idx ≤ 63 → length (row_at v.frames idx) ≡ row_size
row_at-length v idx is l =
    let (row, e) = get_elem?-lt v.frames idx (omega (arith, l, is.frames_length)) in
    ap length (get_or-get_elem? v.frames idx [] row e) ∙ is.rows_length idx row e

written_get :
    (v : Voice) (idx : ℕ) (frame : List ℕ) (level j : ℕ)
    → idx ≤ 63
    → get_frame (set_frame v idx frame level).0 j ≡ get_frame (written v idx frame level) j
written_get v idx frame level j l = ap (λ r. get_frame r.0 j) (set_frame_inside v idx frame level l)

get_frame-own :
    (v : Voice) (idx : ℕ) (frame : List ℕ) (level : ℕ)
    → IsVoice v
    → idx ≤ 63
    → length frame ≤ row_size
    → get_frame (written v idx frame level) idx ≡ returns frame
get_frame-own v idx frame level is l k =
    let w = written v idx frame level in
    let old = row_at v.frames idx in
    let t : take row_size frame ≡ frame = take_beyond row_size frame k in
    let e : get_elem? w.frames idx ≡ some (overwrite old frame) =
      written_row v idx frame level is l ∙ ap (λ f. some (overwrite old f)) t in
    let size : get_or w.frame_sizes idx 0 ≡ length frame = written_size v idx frame level is l in
    get_frame_row w idx (overwrite old frame) l e
      (omega (arith, size, length-append frame (drop (length frame) old)))
    ∙ ap (λ n. returns (take n (overwrite old frame))) size
    ∙ ap returns (take-append_length frame (drop (length frame) old))

get_frame-other :
    (v : Voice) (idx : ℕ) (frame : List ℕ) (level j : ℕ)
    → IsVoice v
    → j ≤ 63
    → idx ≢ j
    → get_or v.frame_sizes j 0 ≤ row_size
    → get_frame (written v idx frame level) j ≡ get_frame v j
get_frame-other v idx frame level j is l n k =
    let w = written v idx frame level in
    let (row, e) = get_elem?-lt v.frames j (omega (arith, l, is.frames_length)) in
    let size : get_or w.frame_sizes j 0 ≡ get_or v.frame_sizes j 0 =
      get_or-set_ne v.frame_sizes idx j (length frame) 0 n in
    let there : get_elem? w.frames j ≡ some row =
      get_elem?-set_other v.frames idx j (overwrite (row_at v.frames idx) (take row_size frame)) n
      ∙ e in
    get_frame_row w j row l there (omega (arith, size, k, is.rows_length j row e))
    ∙ ap (λ s. returns (take s row)) size
    ∙ sym (get_frame_row v j row l e (omega (arith, k, is.rows_length j row e)))

-- A frame of at most 2048 bytes that is written to a voice at an index up to 63 is read from it, and
-- every other frame that is not larger than its row is read as before.
pub get_frame-set_frame :
    (v : Voice) (idx : ℕ) (frame : List ℕ) (level j : ℕ)
    → IsVoice v
    → idx ≤ 63
    → length frame ≤ row_size
    → j ≤ 63
    → idx ≢ j
    → get_or v.frame_sizes j 0 ≤ row_size
    → (get_frame (set_frame v idx frame level).0 idx ≡ returns frame)
      × (get_frame (set_frame v idx frame level).0 j ≡ get_frame v j)
get_frame-set_frame v idx frame level j is l k m n s = (
  written_get v idx frame level idx l ∙ get_frame-own v idx frame level is l k,
  written_get v idx frame level j l ∙ get_frame-other v idx frame level j is m n s,
)

-- Of a frame of more than 2048 bytes only these are stored, but its size is kept whole: what is read
-- goes on with the frames that follow in memory, up to the size.
pub get_frame-overlong :
    (v : Voice) (idx : ℕ) (frame : List ℕ) (level : ℕ)
    → IsVoice v
    → idx ≤ 63
    → row_size < length frame
    → length frame ≤ row_size + length (concat_rows (drop (suc idx) v.frames))
    → get_frame (set_frame v idx frame level).0 idx
      ≡ returns (take (length frame) (take row_size frame ++ concat_rows (drop (suc idx) v.frames)))
get_frame-overlong v idx frame level is l k m =
    let w = written v idx frame level in
    let old = row_at v.frames idx in
    let rest = concat_rows (drop (suc idx) v.frames) in
    let kept = take row_size frame in
    let n : length kept ≡ row_size = length-take row_size frame ∙ omega (arith, k) in
    let whole : overwrite old kept ≡ kept =
      ap (λ d. kept ++ d)
        (drop_beyond (length kept) old (omega (arith, n, row_at-length v idx is l)))
      ∙ append_nil kept in
    let e : get_elem? w.frames idx ≡ some kept =
      written_row v idx frame level is l ∙ ap some whole in
    let size : get_or w.frame_sizes idx 0 ≡ length frame = written_size v idx frame level is l in
    written_get v idx frame level idx l
    ∙ get_frame_inside w idx kept l e
    ∙ ap (λ r. read_rows (kept ++ concat_rows r) (get_or w.frame_sizes idx 0))
        (drop-set v.frames idx (overwrite old kept))
    ∙ ap (read_rows (kept ++ rest)) size
    ∙ read_rows-within (kept ++ rest) (length frame) (omega (arith, m, n, length-append kept rest))
