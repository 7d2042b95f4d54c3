-- ===== src/Message.antt =====
-- The messages of Common/Message.c and Common/Message.h. The memory that `malloc` hands out is the
-- argument `fresh`.
pub mod RoundTrip
pub mod Nonces
use fosketch.Prelude.{
  ℕ, zero, suc, ◌+◌, ◌-◌, Bool, true, false, Option, none, some, List, [], ◌∷◌, ◌++◌, length, take,
  drop, replicate, ◌==◌, if◌then◌else◌,
}
use fosketch.Cipher.{Evp, gcm_iv_size, incr_ctr, gcm_encrypt, gcm_decrypt, Decrypted}

-- `enum message_type`
pub data MessageType : Type 0 where
  stat : MessageType
  flow_size : MessageType
  heavy_hitter : MessageType
  heavy_change : MessageType
  cardinality : MessageType
  dist : MessageType
  entropy : MessageType
  stop : MessageType

-- The fields of a message but for its links, which Queue has. `payload` is the memory behind the
-- pointer, `none` where that is `NULL`.
pub record Message : Type 0 where
  pub kind : MessageType
  pub payload_size : ℕ
  pub mac : List ℕ
  pub payload : Option (List ℕ)

-- `struct ctx_gcm_s`
pub record GcmContext : Type 0 where
  pub key : List ℕ
  pub iv : List ℕ

-- `alloc_gcm`: `RAND_bytes` fills both fields; what it draws are the arguments.
unfoldable pub alloc_gcm : (random_key random_iv : List ℕ) → GcmContext
alloc_gcm random_key random_iv = record { key = random_key; iv = random_iv }

-- `memcpy` to the place `at` of a memory. The source would overrun a memory that is too short; this one
-- grows.
abbrev pub copy_to : (at : ℕ) (bytes memory : List ℕ) → List ℕ
copy_to at bytes memory = take at memory ++ (bytes ++ drop (at + length bytes) memory)

-- The memory behind a message's pointer; behind `NULL` there is none.
abbrev pub memory_of : Option (List ℕ) → List ℕ
memory_of none = []
memory_of (some m) = m

pub record Packed : Type 0 where
  pub message : Message
  pub ctx : GcmContext

abbrev pub with_header : Message → MessageType → ℕ → Message
with_header m kind size = record m {
  kind = kind;
  payload_size = if size == 0 then 0 else gcm_iv_size + size;
}

module _ (evp : Evp) where
  -- The branch `payload != NULL`: the IV, then the cipher text, then the next IV.
  unfoldable pub pack_payload :
      (m : Message) (ctx : GcmContext) (fresh payload : List ℕ) (is_enclave : Bool) → Packed
  unfolding gcm_encrypt incr_ctr
  pack_payload m ctx fresh payload is_enclave =
      let memory = if is_enclave then memory_of m.payload else fresh in
      let e = gcm_encrypt evp payload ctx.key ctx.iv in
      let with_iv = copy_to 0 ctx.iv memory in
      record {
        message = record m {
          mac = e.mac;
          payload = some (copy_to gcm_iv_size e.ciphertext with_iv);
        };
        ctx = record ctx { iv = incr_ctr gcm_iv_size ctx.iv };
      }

  -- `payload` holds `size` bytes, or is `NULL`.
  unfoldable pub pack_message :
      (m : Message) (kind : MessageType) (ctx : GcmContext) (fresh : List ℕ)
      (payload : Option (List ℕ)) (size : ℕ) (is_enclave : Bool)
      → Packed
  unfolding pack_payload
  pack_message m kind ctx fresh none size is_enclave = record {
    message = with_header m kind size;
    ctx = ctx;
  }
  pack_message m kind ctx fresh (some payload) size is_enclave =
      pack_payload (with_header m kind size) ctx fresh payload is_enclave

  -- The length that is handed on would be negative for a `payload_size` below 12; here it is 0.
  unfoldable pub unpack_message : Message → GcmContext → Decrypted
  unfolding gcm_decrypt
  unpack_message m ctx =
      let memory = memory_of m.payload in
      gcm_decrypt evp (take (m.payload_size - gcm_iv_size) (drop gcm_iv_size memory)) m.mac ctx.key
        (take gcm_iv_size memory)

-- `free_message` clears every field; `free` gives the memory back.
unfoldable pub free_message : Message → Message
free_message m = record { kind = stat; payload_size = 0; mac = replicate 16 0; payload = none }
