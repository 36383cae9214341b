-- ===== src/Members/Tests.antt =====
-- RosaServer/api.cpp: members of some structures, and the theorems at them.
use rosa_server.Base.{
  ℕ, zero, suc, ◌≡◌, ◌≢◌, refl, ap, ◌∙◌, List, [], ◌∷◌, ◌++◌, take, drop, get_elem?, length,
  length-append, replicate, length-replicate, arith, some, none, returns, throws, Error,
}
use rosa_server.Base.Int.{pos, negsuc}
use rosa_server.Members.Human
use rosa_server.Members.Item
use rosa_server.Members.Voice.{Voice, row_size, concat_rows, get_frame, set_frame}
use rosa_server.Members.Recorded.{IsVoice, get_frame-set_frame, get_frame-overlong}

abbrev held : Item.Item
held = record {
  type_id = pos 3;
  grenade_primer_id = negsuc 0;
  parent_human_id = pos 7;
  parent_item_id = negsuc 0;
  connected_phone_id = negsuc 0;
  vehicle_id = negsuc 0;
}

holder_given : Item.get_parent_human held ≡ some (pos 7)
unfolding Item.get_parent_human
holder_given = refl

no_type_refused : Item.set_type held none ≡ (held, throws Error.nil_argument)
unfolding Item.set_type
no_type_refused = refl

-- There are six slots, and this is the seventh.
seventh_slot_given : Human.get_inventory_slot 6 ≡ returns 6
unfolding Human.get_inventory_slot
seventh_slot_given = refl

abbrev silent_row : List ℕ
silent_row = replicate row_size 0

abbrev silence : Voice
silence = record {
  frame_volume_levels = replicate 64 0;
  frame_sizes = replicate 64 0;
  frames = replicate 64 silent_row;
}

get_elem?-replicate : (k i : ℕ) (x row : List ℕ) → get_elem? (replicate k x) i ≡ some row → row ≡ x
get_elem?-replicate zero i x row e = absurd (cc e)
get_elem?-replicate (suc k) zero x row e = cc e
get_elem?-replicate (suc k) (suc i) x row e = get_elem?-replicate k i x row e

silence-IsVoice : IsVoice silence
silence-IsVoice = record {
  sizes_length = length-replicate {A = ℕ} 64 0;
  frames_length = length-replicate 64 silent_row;
  rows_length = λ i row e.
      ap length (get_elem?-replicate 64 i silent_row row e) ∙ length-replicate {A = ℕ} row_size 0;
}

two_not_five : ◌≢◌ {A = ℕ} 2 5
two_not_five e = omega (arith, e)

get_frame-set_frame_example :
    (get_frame (set_frame silence 2 (9 ∷ 8 ∷ []) 1).0 2 ≡ returns (9 ∷ 8 ∷ []))
    × (get_frame (set_frame silence 2 (9 ∷ 8 ∷ []) 1).0 5 ≡ get_frame silence 5)
get_frame-set_frame_example =
    get_frame-set_frame silence 2 (9 ∷ 8 ∷ []) 1 5 silence-IsVoice (omega arith) (omega arith)
      (omega arith) two_not_five (omega arith)

abbrev long_frame : List ℕ
long_frame = replicate 3000 9

get_frame-overlong_example :
    get_frame (set_frame silence 2 long_frame 1).0 2
    ≡ returns
        (take (length long_frame) (take row_size long_frame ++ concat_rows (drop 3 silence.frames)))
get_frame-overlong_example =
    get_frame-overlong silence 2 long_frame 1 silence-IsVoice (omega arith)
      (omega (arith, length-replicate {A = ℕ} 3000 9))
      (omega (
        arith,
        length-replicate {A = ℕ} 3000 9,
        length-append silent_row (concat_rows (replicate 60 silent_row)),
        length-replicate {A = ℕ} row_size 0,
      ))
