-- ===== src/Io.antt =====
-- UEFIpp/Include/UEFIpp/IO/Core/Error.hpp: the errors of the input and output layer.
-- A firmware status is its number, and 0 is `StatusCode::Success`, the value of `UEFI::Status{}`.
pub mod Sinks
pub mod Sources
pub mod Adapters
pub mod Newlines
use uefipp.Base.{ℕ, Bool, Expected}

pub data Operation : Type 0 where
  none_given open_file read write flush seek truncate close wait encode : Operation
  decode format parse allocate : Operation

pub data ErrorCode : Type 0 where
  firmware invalid_argument closed end_of_file unexpected_end_of_file would_block : ErrorCode
  no_progress overflow invalid_format invalid_encoding out_of_memory unsupported : ErrorCode
  cancelled timeout : ErrorCode

pub record Error : Type 0 where
  pub code : ErrorCode
  pub during : Operation
  pub status : ℕ
  pub offset : ℕ
  pub transferred : ℕ

abbrev pub from_status : Operation → ℕ → ℕ → ℕ → Error
from_status during status offset transferred = record {
  code = ErrorCode.firmware;
  during = during;
  status = status;
  offset = offset;
  transferred = transferred;
}

abbrev pub semantic_at : ErrorCode → Operation → ℕ → ℕ → Error
semantic_at code during offset transferred = record {
  code = code;
  during = during;
  status = 0;
  offset = offset;
  transferred = transferred;
}

-- `Error::Semantic(Code, During)`, its other arguments left out.
abbrev pub semantic : ErrorCode → Operation → Error
semantic code during = semantic_at code during 0 0

-- What a loop that the model runs on fuel can end with: the code's error, or no fuel left.
pub data Stop : Type 0 where
  failed : Error → Stop
  out_of_fuel : Stop

abbrev pub lift {ℓ} : {A : Type ℓ} → Expected Error A → Expected Stop A
lift (Expected.value a) = Expected.value a
lift (Expected.unexpected e) = Expected.unexpected (failed e)

pub record ReadCount : Type 0 where
  pub count : ℕ
  pub at_end : Bool
