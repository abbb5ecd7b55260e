-- ===== src/Assembly/Layout/Assembling/Tests.antt =====
-- The sample program assembled with an encoder for two instructions.
use uefipp.Base.{
  ℕ, ◌+◌, ◌-◌, ◌%◌, ◌≡◌, refl, ap, Bool, true, false, none, some, List, [], ◌∷◌, length, leb,
  if◌then◌else◌, value, arith,
}
use uefipp.Alignment.{align_up, try_align_up, is_power_of_two}
use uefipp.Assembly.Instructions.{Operand, immediate}
use uefipp.Assembly.Programs.{text}
use uefipp.Assembly.Programs.Sample.{sample, sample_reached}
use uefipp.Assembly.Layout.{Backend, Grants, maximum_label_id, compute_layout, resolve}
use uefipp.Assembly.Layout.Assembling.{AssembledCode, settle, assemble}
use uefipp.Assembly.Layout.Assembling.Images.{SectionsImage}
use uefipp.Assembly.Layout.Assembling.Written.{FitsSections}
use uefipp.Assembly.Layout.Assembling.Progress.{IsExact, GrantsAll, assemble_succeeds}
use uefipp.Assembly.Layout.Assembling.Whole.{assemble_image}

-- A short jump, and a return for whatever has no target.
abbrev short : List Operand → ℕ → List ℕ
short (immediate x n ∷ xs) address = 0xeb ∷ (x.absolute_address + 256 - (address + 2)) % 256 ∷ []
short xs address = 0xc3 ∷ []

abbrev backend : Backend
backend = record {
  encode = λ i n address.
      if leb (length (short i.operands address)) n then some (short i.operands address) else none;
  decode = λ bytes address. none;
}

enough :
    (s bytes : List ℕ)
    → s ≡ bytes
    → (if leb (length s) (length bytes) then some s else none) ≡ some bytes
enough s bytes e =
    let fits : leb (length s) (length bytes) ≡ true = ground (arith, ap length e) in
    rw fits (ap (λ x. some x) e)

some_of : (s bytes : List ℕ) (b : Bool) → (if b then some s else none) ≡ some bytes → s ≡ bytes
some_of s bytes true e = cc e
some_of s bytes false e = cc e

backend-IsExact : IsExact backend
backend-IsExact i address bytes e =
    enough (short i.operands address) bytes
      (some_of (short i.operands address) bytes (leb (length (short i.operands address)) 15) e)

abbrev all_granted : Grants
all_granted = record {
  vectors = true;
  buffer = λ n. true;
  section_table = true;
  relocation = λ n. true;
}

granted : GrantsAll all_granted
granted = record {
  of_vectors = refl;
  of_buffer = λ n. refl;
  of_table = refl;
  of_relocation = λ n. refl;
}

abbrev settled_sizes : List (List ℕ)
settled_sizes = (2 ∷ 3 ∷ 0 ∷ 0 ∷ 1 ∷ []) ∷ []

settles : settle backend 0 sample ≡ value settled_sizes
unfolding settle align_up is_power_of_two resolve compute_layout maximum_label_id try_align_up
settles = refl

abbrev assembled : AssembledCode
assembled = record {
  bytes = 0xeb ∷ 6 ∷ 1 ∷ 2 ∷ 3 ∷ 0xcc ∷ 0xcc ∷ 0xcc ∷ 0xc3 ∷ [];
  sections = record { id = 0; kind = text; offset = 0; size = 9; alignment = 16 } ∷ [];
  relocations = [];
  base_address = 0;
}

assembles : assemble backend all_granted 0 sample ≡ value assembled
unfolding assemble align_up is_power_of_two resolve compute_layout maximum_label_id try_align_up
assembles = refl

sample_fits : FitsSections sample.sections settled_sizes 0
unfolding align_up is_power_of_two try_align_up
sample_fits = (
  omega arith,
  ((omega arith, (omega arith, (omega arith, (omega arith, (omega arith, tt))))), tt),
)

assemble_image_example :
    SectionsImage backend 0
      (compute_layout 0 1 sample.sections settled_sizes).addresses
      sample.sections
      []
      assembled.bytes
unfolding maximum_label_id
assemble_image_example =
    assemble_image backend all_granted 0 sample settled_sizes assembled sample_reached settles
      sample_fits assembles

assemble_succeeds_example :
    (code : AssembledCode) × (assemble backend all_granted 0 sample ≡ value code)
assemble_succeeds_example =
    assemble_succeeds backend all_granted 0 sample settled_sizes backend-IsExact granted settles
      refl
