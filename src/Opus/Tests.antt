-- ===== src/Opus/Tests.antt =====
-- RosaServer/opusencoder.cpp: a short file, and the theorem at it.
use rosa_server.Base.{ℕ, ◌≡◌, refl, List, [], ◌∷◌, none, some, returns, throws, Error, arith}
use rosa_server.Opus.{
  close, OpusEncoder, packet, Encoder, open_file, encode_frame, encode_frame_string,
}
use rosa_server.Opus.Frames.{encode_all, Encodes}
use rosa_server.Opus.File.{BytesGiven, encode_all-gives_all}

abbrev silent : OpusEncoder
silent given f = packet []

silent-Encodes : Encodes silent
silent-Encodes given f = ([], refl)

abbrev no_file : Encoder
no_file = record { input = none; given = [] }

abbrev three_samples : List ℕ
three_samples = 1 ∷ 0 ∷ 2 ∷ 0 ∷ 255 ∷ 255 ∷ []

abbrev opened_file : Encoder
opened_file = record { input = some (record { before = []; ahead = three_samples }); given = [] }

three_samples_opened : open_file no_file (some three_samples) 0 ≡ (opened_file, returns tt)
unfolding open_file close
three_samples_opened = refl

no_file_refused : encode_frame silent no_file ≡ (no_file, throws Error.no_file_opened)
unfolding encode_frame
no_file_refused = refl

short_text_refused :
    encode_frame_string silent no_file (1 ∷ []) ≡ (no_file, throws Error.wrong_length)
unfolding encode_frame_string
short_text_refused = refl

encode_all-gives_all_example :
    BytesGiven opened_file three_samples (encode_all silent 4 opened_file)
encode_all-gives_all_example =
    encode_all-gives_all silent 4 opened_file (record { before = []; ahead = three_samples }) 3
      silent-Encodes refl refl
      (omega arith, (omega arith, (omega arith, (omega arith, (omega arith, (omega arith, tt))))))
      (omega arith)
