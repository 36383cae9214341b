-- ===== src/Base/Throws.antt =====
-- Calls that return or throw. The exceptions are those of the sources, by their message.
use Prim.Native.Nat.{ℕ}
use mathlib.Core.Bool.{Bool}
use rosa_server.Base.Tests.{if◌then◌else◌}

-- `undefined_access` is no exception: it marks an access outside of its object, which C++ leaves
-- undefined. `system n` is the text of the error number n, `opus_error n` that of Opus for -n. The others stand for the literal messages of the sources.
pub data Error : Type 0 where
  system : ℕ → Error
  nil_argument not_open data_empty failed_to_connect incomplete_write : Error
  undefined_access index_out_of_range vector_at map_at bad_link : Error
  could_not_load could_not_save no_data_loaded coordinates_out_of_range too_few_channels : Error
  invalid_channel_count zero_width zero_height : Error
  no_file_opened wrong_length : Error
  opus_error : ℕ → Error

pub data Call {ℓ} (A : Type ℓ) : Type ℓ where
  returns : A → Call A
  throws : Error → Call A

infixl 5 ◌>>=◌ ◌>>◌
-- What comes after a call runs if it returned.
abbrev pub ◌>>=◌ {ℓ κ} : {A : Type ℓ} {B : Type κ} → Call A → (A → Call B) → Call B
call >>= next = elim call [ returns a ↦ next a | throws e ↦ throws e ]

abbrev pub ◌>>◌ {ℓ} : {B : Type ℓ} → Call (Unit {0}) → Call B → Call B
call >> next = elim call [ returns a ↦ next | throws e ↦ throws e ]

-- `if (!test) throw e;`
abbrev pub require : Bool → Error → Call (Unit {0})
require test e = if test then returns tt else throws e
