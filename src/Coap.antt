-- ===== src/Coap.antt =====
-- src/coap/common: what the client and the server share of the transport.
pub mod Data
pub mod Request
pub mod Pdu
pub mod Context
use tfg_edhoc.Base.{
  ℕ, zero, suc, ◌+◌, ◌-◌, ◌*◌, ◌/◌, ◌%◌, ◌≤◌, ◌<◌, ◌≡◌, refl, sym, ap, subst, ◌∙◌, ◌≢◌, ◌⊎◌, inl,
  inr, Bool, true, false, not, ◌&&◌, ◌||◌, Option, none, some, List, [], ◌∷◌, ◌++◌, map, append-nil,
  append_assoc, arith, ltb, leb, ◌==◌, if◌then◌else◌, is_some, or_else, same_address, ◌>>=◌,
  Bool-cases, Option-cases, same_address_eq, same_address_refl, length, get_elem?, write, replicate,
  take, last_or, length-append, length-replicate, length-map, write-append, All, write_next,
  take-append, All-append,
}

-- include/coap/common/com_coap_status.h
pub data StatusCoap : Type 0 where
  ok err : StatusCoap

-- include/coap/coap_config.h
abbrev pub max_pdu_size : ℕ
max_pdu_size = 1024

abbrev pub content_cid_edhoc : ℕ
content_cid_edhoc = 65

abbrev pub content_edhoc : ℕ
content_edhoc = 64

-- `status == STATUS_COAP_OK`
abbrev pub coap_ok : StatusCoap → Bool
coap_ok ok = true
coap_ok err = false
