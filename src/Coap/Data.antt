-- ===== src/Coap/Data.antt =====
-- include/coap/common/com_coap_get_data.h and src/coap/common/com_coap_get_data.c.
use tfg_edhoc.Base.{
  ℕ, ◌≤◌, ◌<◌, ◌≡◌, refl, inl, inr, Bool, not, ◌||◌, Option, none, some, List, ◌++◌, arith, ltb,
  ◌==◌, if◌then◌else◌, is_some, ◌>>=◌, Option-cases, length, take, drop,
}
use tfg_edhoc.Library.{Libcoap, LargeData}
use tfg_edhoc.Common.Buffers.{
  ReadonlyBuffer, WritableBuffer, empty_buffer, writable_buffer_is_writable, writable_as_readonly,
  ConversionStatus,
}

pub data GetDataStatus : Type 0 where
  ok err_pdu err_data_buffer err_no_payload err_incomplete_body err_data_buffer_too_small
        err_empty_data :
      GetDataStatus

pub record GetDataResult : Type 0 where
  pub status : GetDataStatus
  pub buffer : ReadonlyBuffer

abbrev failure : GetDataStatus → GetDataResult
failure s = record { status = s; buffer = empty_buffer }

-- `memcpy` of the body to the front of the buffer.
abbrev pub copy_to_front : ℕ → List ℕ → List ℕ → List ℕ
copy_to_front n body buffer = take n body ++ drop n buffer

abbrev finish : Option (List ℕ) → ℕ → GetDataResult
finish bytes length = elim (writable_as_readonly bytes length).status [
  | ConversionStatus.ok ↦ record {
    status = ok;
    buffer = (writable_as_readonly bytes length).buffer;
  }
  | ConversionStatus.err_empty_buffer ↦ failure err_no_payload
]

abbrev store_body : LargeData → List ℕ → WritableBuffer → GetDataResult
store_body d body buffer =
    if not (d.offset == 0) || not (d.length == d.total_length)
    then failure err_incomplete_body
    else if ltb buffer.capacity d.length
    then failure err_data_buffer_too_small
    else finish (buffer.bytes >>= λ bytes. some (copy_to_front d.length body bytes)) d.length

module _ {P O : Type 0} (coap : Libcoap P O) where
  unfoldable pub get_data : Option P → WritableBuffer → GetDataResult
  get_data none buffer = failure err_pdu
  get_data (some pdu) buffer =
      if not (writable_buffer_is_writable buffer)
      then failure err_data_buffer
      else elim (coap.get_data_large pdu) [
        | none ↦ failure err_no_payload
        | some d ↦ elim d.data_bytes [
          | none ↦ failure err_no_payload
          | some body ↦ store_body d body buffer
        ]
      ]

  unfoldable pub pdu_is_empty : P → Bool
  pdu_is_empty pdu = not (is_some (coap.get_data_large pdu))

  -- The buffer shows the whole body of a PDU.
  abbrev pub ShowsBody : Option P → WritableBuffer → ReadonlyBuffer → Type 0
  ShowsBody p buffer shown =
      (pdu : P) × (d : LargeData) × (body : List ℕ) × (bytes : List ℕ) × (p ≡ some pdu)
      × (coap.get_data_large pdu ≡ some d)
      × (d.data_bytes ≡ some body)
      × (buffer.bytes ≡ some bytes)
      × (d.offset ≡ 0)
      × (d.length ≡ d.total_length)
      × (0 < d.length)
      × (d.length ≤ buffer.capacity)
      × (shown ≡ record { bytes = some (copy_to_front d.length body bytes); length = d.length })

  -- A payload that is handed on is whole and not empty, fits the buffer, and its bytes are those of
  -- the PDU, at the front of the buffer.
  pub get_data_ok :
      (p : Option P) (buffer : WritableBuffer)
      → (get_data p buffer).status ≡ ok
      → ShowsBody p buffer (get_data p buffer).buffer
  unfolding get_data
  get_data_ok none buffer h = cc
  get_data_ok (some pdu) buffer h = elim (Option-cases (coap.get_data_large pdu)) [
    | inl n ↦ absurd (ground arith)
    | inr (d, has) ↦ elim (Option-cases d.data_bytes) [
      | inl n ↦ absurd (ground arith)
      | inr (body, b) ↦ elim (Option-cases buffer.bytes) [
        | inl n ↦ absurd (ground arith)
        | inr (bytes, w) ↦ (
          pdu,
          d,
          body,
          bytes,
          refl,
          has,
          b,
          w,
          ground arith,
          ground arith,
          ground arith,
          ground arith,
          ground arith,
        )
      ]
    ]
  ]
