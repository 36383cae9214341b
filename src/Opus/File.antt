-- ===== src/Opus/File.antt =====
-- RosaServer/opusencoder.cpp: a file that is encoded frame by frame.
use rosa_server.Base.{
  ℕ, zero, suc, ◌-◌, ◌*◌, ◌≡◌, ◌≤◌, ◌<◌, refl, sym, ap, subst, ◌∙◌, List, [], ◌∷◌, ◌++◌,
  append_assoc, append_nil, length, length-take, length-drop, take, drop, take-append-drop,
  take_beyond, replicate, Option, none, some, arith, Bool-split, leb, leb→le,
}
use rosa_server.Base.{◌+◌, map, length-append, length-replicate}
use rosa_server.Opus.{frame_size, shorts, OpusEncoder, Input, Encoder, samples_of, buffer_of}
use rosa_server.Opus.Samples.{
  samples_of-append, length-samples_of, bytes_of, AllBytes, bytes_of-append, bytes_of-zeros,
  bytes_of-samples_of,
}
use rosa_server.Opus.Frames.{
  encode_all, joined, AllWhole, Encodes, after_frame, nothing_ahead, frame_taken, whole_frame,
  filled_frame,
}

-- What is said of a file that is encoded to its end: the frames that were given.
abbrev pub AllGiven : Encoder → List ℕ → Option Encoder → Type 0
AllGiven e bytes none = ⊥
AllGiven e bytes (some d) =
    (ss : List (List ℕ)) × (n : ℕ) × (n < frame_size)
    × (d.given ≡ e.given ++ map shorts ss)
    × AllWhole ss
    × (joined ss ≡ samples_of bytes ++ replicate n 0)

AllGiven-more :
    (x : Option Encoder) (e d : Encoder) (bytes s rest : List ℕ)
    → d.given ≡ e.given ++ shorts s ∷ []
    → length s ≡ frame_size
    → samples_of bytes ≡ s ++ samples_of rest
    → AllGiven d rest x
    → AllGiven e bytes x
AllGiven-more none e d bytes s rest g w b a = a
AllGiven-more (some c) e d bytes s rest g w b (ss, n, l, a, ws, j) = (
  s ∷ ss,
  n,
  l,
  a ∙ ap (λ t. t ++ map shorts ss) g ∙ append_assoc e.given (shorts s ∷ []) (map shorts ss),
  (w, ws),
  ap (λ t. s ++ t) j
      ∙ sym (append_assoc s (samples_of rest) (replicate n 0))
      ∙ ap (λ t. t ++ replicate n 0) (sym b),
)

no_samples : (bytes : List ℕ) → length bytes ≡ 0 → samples_of bytes ≡ []
no_samples [] e = refl
no_samples (b ∷ bytes) e = absurd (omega (arith, e))

-- The input behind a frame.
abbrev moved : Input → Input
moved f = record {
  before = f.before ++ take (2 * frame_size) f.ahead;
  ahead = drop (2 * frame_size) f.ahead;
}

ended_given :
    (o : OpusEncoder) (fuel : ℕ) (e : Encoder) (f : Input)
    → e.input ≡ some f
    → length f.ahead ≡ 0
    → AllGiven e f.ahead (encode_all o (suc fuel) e)
ended_given o fuel e f i a = subst (AllGiven e f.ahead) (sym (nothing_ahead o fuel e f i a)) (
  [],
  0,
  omega arith,
  sym (append_nil e.given),
  tt,
  sym (ap (λ s. s ++ []) (no_samples f.ahead a)),
)

taken_given :
    (e : Encoder) (f : Input) (s : List ℕ)
    → samples_of (buffer_of (take (2 * frame_size) f.ahead)) ≡ s
    → (after_frame e f).given ≡ e.given ++ shorts s ∷ []
taken_given e f s h = ap (λ t. e.given ++ shorts t ∷ []) h

last_given :
    (o : OpusEncoder) (fuel : ℕ) (e : Encoder) (f : Input) (k : ℕ)
    → Encodes o
    → e.input ≡ some f
    → length f.ahead ≡ 2 * k
    → 0 < k
    → k < frame_size
    → AllGiven e f.ahead (encode_all o (suc (suc fuel)) e)
last_given o fuel e f k t i a p l =
    let d = after_frame e f in
    let all : take (2 * frame_size) f.ahead ≡ f.ahead =
      take_beyond (2 * frame_size) f.ahead (omega (arith, a, l)) in
    let none_left : length (moved f).ahead ≡ 0 =
      length-drop (2 * frame_size) f.ahead ∙ omega (arith, a, l) in
    subst (AllGiven e f.ahead)
      (sym (
        frame_taken o (suc fuel) e f t i (omega (arith, a, p))
        ∙ nothing_ahead o fuel d (moved f) refl none_left))
      (
        (samples_of f.ahead ++ replicate (frame_size - k) 0) ∷ [],
        frame_size - k,
        omega (arith, p, l),
        taken_given e f (samples_of f.ahead ++ replicate (frame_size - k) 0)
            (ap (λ b. samples_of (buffer_of b)) all ∙ filled_frame k f.ahead a (omega (arith, l))),
        (
          length-append (samples_of f.ahead) (replicate (frame_size - k) 0)
              ∙ omega (
                arith,
                l,
                length-samples_of k f.ahead a,
                length-replicate {A = ℕ} (frame_size - k) 0,
              ),
          tt,
        ),
        append_nil (samples_of f.ahead ++ replicate (frame_size - k) 0),
      )

-- In samples: what is said below in bytes.
encode_all-AllGiven :
    (o : OpusEncoder) (fuel : ℕ) (e : Encoder) (f : Input) (k : ℕ)
    → Encodes o
    → e.input ≡ some f
    → length f.ahead ≡ 2 * k
    → k < fuel
    → AllGiven e f.ahead (encode_all o fuel e)
encode_all-AllGiven o zero e f k t i a l = absurd (omega (arith, l))
encode_all-AllGiven o (suc fuel) e f zero t i a l = ended_given o fuel e f i a
encode_all-AllGiven o (suc zero) e f (suc k) t i a l = absurd (omega (arith, l))
encode_all-AllGiven o (suc (suc fuel)) e f (suc k) t i a l =
    Bool-split (λ b. AllGiven e f.ahead (encode_all o (suc (suc fuel)) e)) (leb frame_size (suc k))
      (λ h.
        let bytes = take (2 * frame_size) f.ahead in
        let rest = drop (2 * frame_size) f.ahead in
        let big : frame_size ≤ suc k = leb→le frame_size (suc k) h in
        let full : length bytes ≡ 2 * frame_size =
          length-take (2 * frame_size) f.ahead ∙ omega (arith, a, big) in
        let left : length rest ≡ 2 * (suc k - frame_size) =
          length-drop (2 * frame_size) f.ahead ∙ omega (arith, a, big) in
        let parts : samples_of f.ahead ≡ samples_of bytes ++ samples_of rest =
          ap samples_of (sym (take-append-drop (2 * frame_size) f.ahead))
          ∙ samples_of-append frame_size bytes rest full in
        subst (AllGiven e f.ahead) (sym (frame_taken o (suc fuel) e f t i (omega (arith, a)))) (
          AllGiven-more (encode_all o (suc fuel) (after_frame e f)) e (after_frame e f) f.ahead
            (samples_of bytes) rest (taken_given e f (samples_of bytes) (whole_frame bytes full))
            (length-samples_of frame_size bytes full) parts
            (encode_all-AllGiven o (suc fuel) (after_frame e f) (moved f) (suc k - frame_size) t
              refl left (omega (arith, l, big)))))
      (λ h. last_given o fuel e f (suc k) t i a (omega arith) (ground (arith, h)))

-- The frames that were given until the end of a file, against its bytes.
abbrev pub BytesGiven : Encoder → List ℕ → Option Encoder → Type 0
BytesGiven e bytes none = ⊥
BytesGiven e bytes (some d) =
    (ss : List (List ℕ)) × (n : ℕ) × (n < frame_size)
    × (d.given ≡ e.given ++ map shorts ss)
    × AllWhole ss
    × (bytes_of (joined ss) ≡ bytes ++ replicate (n + n) 0)

in_bytes :
    (x : Option Encoder) (e : Encoder) (bytes : List ℕ) (k : ℕ)
    → length bytes ≡ 2 * k
    → AllBytes bytes
    → AllGiven e bytes x
    → BytesGiven e bytes x
in_bytes none e bytes k h b a = a
in_bytes (some d) e bytes k h b (ss, n, l, a, w, j) = (
  ss,
  n,
  l,
  a,
  w,
  ap bytes_of j
      ∙ bytes_of-append (samples_of bytes) (replicate n 0)
      ∙ ap (λ t. t ++ bytes_of (replicate n 0)) (bytes_of-samples_of k bytes h b)
      ∙ ap (λ t. bytes ++ t) (bytes_of-zeros n),
)

-- If Opus encodes every frame, and the rest of an open file is whole samples, then `encodeFrame` gives nil
-- after at most as many calls as there are samples and one more; by then Opus was given frames of exactly
-- 960 samples, and nothing else, whose bytes, the lower one of each sample first, are one after the other
-- those of the rest of the file and zeros for fewer than 960 samples.
pub encode_all-gives_all :
    (o : OpusEncoder) (fuel : ℕ) (e : Encoder) (f : Input) (k : ℕ)
    → Encodes o
    → e.input ≡ some f
    → length f.ahead ≡ 2 * k
    → AllBytes f.ahead
    → k < fuel
    → BytesGiven e f.ahead (encode_all o fuel e)
encode_all-gives_all o fuel e f k t i a b l =
    in_bytes (encode_all o fuel e) e f.ahead k a b (encode_all-AllGiven o fuel e f k t i a l)
