-- ===== src/Types/Status.antt =====
-- src/types.rs: the status codes, the results that carry them, and the mapping of decode errors.
use imageglass_ithmb_plugin.Prelude.{ℕ, List, codes}

-- `IGStatus`.
pub data IgStatus : Type 0 where
  ok unsupported canceled invalid_arg decode_failed : IgStatus
  out_of_memory internal not_implemented io_error encode_failed : IgStatus

-- The discriminant that crosses the ABI.
unfoldable pub status_code : IgStatus → ℕ
status_code IgStatus.ok = 0
status_code IgStatus.unsupported = 1
status_code IgStatus.canceled = 2
status_code IgStatus.invalid_arg = 3
status_code IgStatus.decode_failed = 4
status_code IgStatus.out_of_memory = 5
status_code IgStatus.internal = 6
status_code IgStatus.not_implemented = 7
status_code IgStatus.io_error = 8
status_code IgStatus.encode_failed = 9

-- What `{status:?}` prints: the derived `Debug` writes the variant's name.
unfoldable pub debug_status : IgStatus → List ℕ
debug_status IgStatus.ok = codes "Ok"
debug_status IgStatus.unsupported = codes "Unsupported"
debug_status IgStatus.canceled = codes "Canceled"
debug_status IgStatus.invalid_arg = codes "InvalidArg"
debug_status IgStatus.decode_failed = codes "DecodeFailed"
debug_status IgStatus.out_of_memory = codes "OutOfMemory"
debug_status IgStatus.internal = codes "Internal"
debug_status IgStatus.not_implemented = codes "NotImplemented"
debug_status IgStatus.io_error = codes "IoError"
debug_status IgStatus.encode_failed = codes "EncodeFailed"

-- `Result<A, IGStatus>`.
pub data Result {ℓ} (A : Type ℓ) : Type ℓ where
  ok : A → Result A
  err : IgStatus → Result A

-- The `?` operator.
infixl 5 ◌>>=?◌
abbrev pub ◌>>=?◌ {ℓ κ} : {A : Type ℓ} {B : Type κ} → Result A → (A → Result B) → Result B
Result.ok a >>=? f = f a
Result.err e >>=? f = Result.err e

-- The variants of `ithmb_core::DecodeError` that the plugin tells apart, without their payloads;
-- `other` stands for the variants that it does not name.
pub data DecodeError : Type 0 where
  io jpeg profile invalid_format buffer_too_short unsupported canceled other : DecodeError

unfoldable pub ig_status_from_decode_error : DecodeError → IgStatus
ig_status_from_decode_error DecodeError.io = IgStatus.io_error
ig_status_from_decode_error DecodeError.jpeg = IgStatus.decode_failed
ig_status_from_decode_error DecodeError.profile = IgStatus.decode_failed
ig_status_from_decode_error DecodeError.invalid_format = IgStatus.invalid_arg
ig_status_from_decode_error DecodeError.buffer_too_short = IgStatus.invalid_arg
ig_status_from_decode_error DecodeError.unsupported = IgStatus.unsupported
ig_status_from_decode_error DecodeError.canceled = IgStatus.canceled
ig_status_from_decode_error DecodeError.other = IgStatus.internal
