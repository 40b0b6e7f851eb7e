-- ===== src/Common/Buffers.antt =====
-- include/common/com_data_models.h and src/common/com_data_models.c.
-- A pointer to bytes is an option: NULL, or the bytes that it points to. A view carries the bytes
-- that it shows; `length` is what the view claims, which may be less than the bytes behind it.
use tfg_edhoc.Base.{ℕ, Bool, ◌&&◌, Option, none, List, ltb, is_some, if◌then◌else◌}

pub record ReadonlyBuffer : Type 0 where
  pub bytes : Option (List ℕ)
  pub length : ℕ

pub record WritableBuffer : Type 0 where
  pub bytes : Option (List ℕ)
  pub capacity : ℕ

abbrev pub empty_buffer : ReadonlyBuffer
empty_buffer = record { bytes = none; length = 0 }

abbrev pub readonly_buffer_has_content : ReadonlyBuffer → Bool
readonly_buffer_has_content b = is_some b.bytes && ltb 0 b.length

abbrev pub writable_buffer_is_valid : WritableBuffer → Bool
writable_buffer_is_valid b = is_some b.bytes

abbrev pub writable_buffer_is_writable : WritableBuffer → Bool
writable_buffer_is_writable b = writable_buffer_is_valid b && ltb 0 b.capacity

pub data ConversionStatus : Type 0 where
  ok err_empty_buffer : ConversionStatus

pub record ReadonlyConversionResult : Type 0 where
  pub status : ConversionStatus
  pub buffer : ReadonlyBuffer

-- `bytes` is what the buffer holds when it is converted.
abbrev pub writable_as_readonly : Option (List ℕ) → ℕ → ReadonlyConversionResult
writable_as_readonly bytes written_length =
    if readonly_buffer_has_content readonly
    then record { status = ok; buffer = readonly }
    else record { status = err_empty_buffer; buffer = empty_buffer }
  where
    readonly : ReadonlyBuffer
    readonly = record { bytes = bytes; length = written_length }
