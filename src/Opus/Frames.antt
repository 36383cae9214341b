-- ===== src/Opus/Frames.antt =====
-- RosaServer/opusencoder.cpp: one frame of a file.
use rosa_server.Base.{
  ℕ, zero, suc, ◌+◌, ◌-◌, ◌*◌, ◌/◌, ◌≡◌, ◌≤◌, ap, ◌∙◌, List, [], ◌∷◌, ◌++◌, append_nil, length,
  length-take, take, replicate, Option, none, some, if◌then◌else◌, ◌==◌, Call, returns, throws,
  arith, Bool, true, false,
}
use rosa_server.Opus.{
  frame_size, Frame, shorts, packet, OpusEncoder, Input, Encoder, samples_of, encode, encoded,
  as_object, after_read, buffer_of, encode_input, encode_frame,
}
use rosa_server.Opus.Samples.{samples_of-append, samples_of-zeros}

-- `encodeFrame` until it returns nil: a round of fuel for each call; none if a call throws.
abbrev pub continue : Encoder × Call (Option (List ℕ)) → (Encoder → Option Encoder) → Option Encoder
continue (e, returns none) next = some e
continue (e, returns (some p)) next = next e
continue (e, throws x) next = none

abbrev pub encode_all : OpusEncoder → ℕ → Encoder → Option Encoder
encode_all o zero e = none
encode_all o (suc fuel) e = continue (encode_frame o e) (encode_all o fuel)

abbrev pub joined : List (List ℕ) → List ℕ
joined [] = []
joined (s ∷ ss) = s ++ joined ss

-- Every one has the samples of a frame.
abbrev pub AllWhole : List (List ℕ) → Type 0
AllWhole [] = Unit {0}
AllWhole (s ∷ ss) = (length s ≡ frame_size) × AllWhole ss

-- Opus encodes every frame.
abbrev pub Encodes : OpusEncoder → Type 0
Encodes o = (given : List Frame) (f : Frame) → (p : List ℕ) × (o given f ≡ packet p)

-- The state after a frame.
abbrev pub after_frame : Encoder → Input → Encoder
after_frame e f = record (after_read e f) {
  given = e.given ++ shorts (samples_of (buffer_of (take (2 * frame_size) f.ahead))) ∷ [];
}

reads_nothing : (bytes : List ℕ) → length bytes ≡ 0 → (length bytes / 2 == 0) ≡ true
reads_nothing bytes e = ap (λ n. n / 2 == 0) e

reads_some : (bytes : List ℕ) → 2 ≤ length bytes → (length bytes / 2 == 0) ≡ false
reads_some bytes l = ground arith

-- `encodeFrame` by what it read.
abbrev by_samples : OpusEncoder → Encoder → Input → Bool → Encoder × Call (Option (List ℕ))
by_samples o e f b =
    if b
    then (after_read e f, returns none)
    else as_object (
        encode o (after_read e f) (shorts (samples_of (buffer_of (take (2 * frame_size) f.ahead)))))

encode_all-by_samples :
    (o : OpusEncoder) (fuel : ℕ) (e : Encoder) (f : Input) (b : Bool)
    → e.input ≡ some f
    → (length (take (2 * frame_size) f.ahead) / 2 == 0) ≡ b
    → encode_all o (suc fuel) e ≡ continue (by_samples o e f b) (encode_all o fuel)
unfolding encode_frame
encode_all-by_samples o fuel e f b i t =
    ap (λ x. continue (encode_input o e x) (encode_all o fuel)) i
    ∙ ap (λ c. continue (by_samples o e f c) (encode_all o fuel)) t

pub nothing_ahead :
    (o : OpusEncoder) (fuel : ℕ) (e : Encoder) (f : Input)
    → e.input ≡ some f
    → length f.ahead ≡ 0
    → encode_all o (suc fuel) e ≡ some (after_read e f)
nothing_ahead o fuel e f i a = encode_all-by_samples o fuel e f true i (
    reads_nothing (take (2 * frame_size) f.ahead)
      (length-take (2 * frame_size) f.ahead ∙ omega (arith, a)))

pub frame_taken :
    (o : OpusEncoder) (fuel : ℕ) (e : Encoder) (f : Input)
    → Encodes o
    → e.input ≡ some f
    → 2 ≤ length f.ahead
    → encode_all o (suc fuel) e ≡ encode_all o fuel (after_frame e f)
frame_taken o fuel e f t i a =
    let frame = shorts (samples_of (buffer_of (take (2 * frame_size) f.ahead))) in
    let (p, made) = t e.given frame in
    encode_all-by_samples o fuel e f false i (
      reads_some (take (2 * frame_size) f.ahead)
        (omega (arith, a, length-take (2 * frame_size) f.ahead)))
    ∙ ap (λ x. continue (as_object (encoded (after_read e f) frame x)) (encode_all o fuel)) made

-- The samples of a frame that is whole, and of one that is filled up.
pub whole_frame :
    (bytes : List ℕ)
    → length bytes ≡ 2 * frame_size
    → samples_of (buffer_of bytes) ≡ samples_of bytes
whole_frame bytes e =
    ap (λ n. samples_of (bytes ++ replicate (2 * frame_size - n) 0)) e
    ∙ ap samples_of (append_nil bytes)

pub filled_frame :
    (k : ℕ) (bytes : List ℕ)
    → length bytes ≡ 2 * k
    → k ≤ frame_size
    → samples_of (buffer_of bytes) ≡ samples_of bytes ++ replicate (frame_size - k) 0
filled_frame k bytes e l =
    let zeros : 2 * frame_size - length bytes ≡ (frame_size - k) + (frame_size - k) =
      omega (arith, e, l) in
    ap (λ n. samples_of (bytes ++ replicate n 0)) zeros
    ∙ samples_of-append k bytes (replicate ((frame_size - k) + (frame_size - k)) 0) e
    ∙ ap (λ s. samples_of bytes ++ s) (samples_of-zeros (frame_size - k))
