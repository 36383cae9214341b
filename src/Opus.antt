-- ===== src/Opus.antt =====
-- RosaServer/opusencoder.cpp and RosaServer/opusencoder.h: the encoder with its file. What Opus makes of a
-- frame, by the frames that it was given before, is a parameter. Of a sample at the end of a file that has
-- only its first byte, the other one is taken to be 0.
pub mod Samples
pub mod Frames
pub mod File
mod Tests
use rosa_server.Base.{
  ℕ, zero, suc, ◌+◌, ◌-◌, ◌*◌, ◌/◌, List, [], ◌∷◌, ◌++◌, length, take, drop, replicate, Option,
  none, some, if◌then◌else◌, ◌==◌, Call, returns, throws, Error,
}

abbrev pub frame_size : ℕ
frame_size = 960

-- Samples of 16 bits as their patterns, or the bytes of samples that are a `float` each.
pub data Frame : Type 0 where
  shorts : List ℕ → Frame
  floats : List ℕ → Frame

-- `error n` is the result -n.
pub data Encoded : Type 0 where
  packet : List ℕ → Encoded
  error : ℕ → Encoded

abbrev pub OpusEncoder : Type 0
OpusEncoder = List Frame → Frame → Encoded

-- The bytes of an open file before and behind its position.
pub record Input : Type 0 where
  pub before : List ℕ
  pub ahead : List ℕ

pub record Encoder : Type 0 where
  pub input : Option Input
  pub given : List Frame

unfoldable pub close : Encoder → Encoder
close e = record e { input = none }

abbrev pub open_with : Encoder → Option (List ℕ) → ℕ → Encoder × Call (Unit {0})
open_with e none errno = (e, throws (Error.system errno))
open_with e (some content) errno =
    (record e { input = some (record { before = []; ahead = content }) }, returns tt)

-- `open`, with what `fopen` gives: a file with its content, or an error.
unfoldable pub open_file : Encoder → Option (List ℕ) → ℕ → Encoder × Call (Unit {0})
open_file e content errno = open_with (close e) content errno

abbrev pub rewind_input : Encoder → Option Input → Encoder × Call (Unit {0})
rewind_input e none = (e, throws Error.no_file_opened)
rewind_input e (some f) =
    (record e { input = some (record { before = []; ahead = f.before ++ f.ahead }) }, returns tt)

unfoldable pub rewind : Encoder → Encoder × Call (Unit {0})
rewind e = rewind_input e e.input

-- Samples from their bytes, the lower one first.
abbrev pub samples_of : List ℕ → List ℕ
samples_of [] = []
samples_of (low ∷ []) = []
samples_of (low ∷ high ∷ more) = (high * 256 + low) ∷ samples_of more

abbrev pub encoded : Encoder → Frame → Encoded → Encoder × Call (List ℕ)
encoded e frame (packet p) = (record e { given = e.given ++ frame ∷ [] }, returns p)
encoded e frame (error n) =
    (record e { given = e.given ++ frame ∷ [] }, throws (Error.opus_error n))

abbrev pub encode : OpusEncoder → Encoder → Frame → Encoder × Call (List ℕ)
encode o e frame = encoded e frame (o e.given frame)

abbrev pub as_object : Encoder × Call (List ℕ) → Encoder × Call (Option (List ℕ))
as_object (e, returns p) = (e, returns (some p))
as_object (e, throws x) = (e, throws x)

-- The state after `fread`, and the bytes that it read; the rest of the buffer is 0.
abbrev pub after_read : Encoder → Input → Encoder
after_read e f = record e {
  input = some (record {
    before = f.before ++ take (2 * frame_size) f.ahead;
    ahead = drop (2 * frame_size) f.ahead;
  });
}

abbrev pub buffer_of : List ℕ → List ℕ
buffer_of bytes = bytes ++ replicate (2 * frame_size - length bytes) 0

abbrev pub encode_input : OpusEncoder → Encoder → Option Input → Encoder × Call (Option (List ℕ))
encode_input o e none = (e, throws Error.no_file_opened)
encode_input o e (some f) =
    let bytes = take (2 * frame_size) f.ahead in
    if length bytes / 2 == 0
    then (after_read e f, returns none)
    else as_object (encode o (after_read e f) (shorts (samples_of (buffer_of bytes))))

unfoldable pub encode_frame : OpusEncoder → Encoder → Encoder × Call (Option (List ℕ))
encode_frame o e = encode_input o e e.input

-- A frame of samples in the order of bytes of the machine, which has the lower one first, or of floats.
unfoldable pub encode_frame_string : OpusEncoder → Encoder → List ℕ → Encoder × Call (List ℕ)
encode_frame_string o e bytes =
    if length bytes == 2 * frame_size
    then encode o e (shorts (samples_of bytes))
    else (if length bytes == 4 * frame_size
        then encode o e (floats bytes)
        else (e, throws Error.wrong_length))
