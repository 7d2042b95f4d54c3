-- ===== src/Epoch/Receive.antt =====
-- How `OPrepareData` and `TestDecrypt` of FOSketch/Enclave/Enclave.cpp take two sketches from a message.
use fosketch.Prelude.{
  ℕ, ◌+◌, ◌-◌, ◌*◌, ◌<◌, ◌≡◌, ◌≢◌, refl, inl, inr, Bool, true, false, not, Bool-cases, Option, none,
  some, List, arith, length, leb, take, drop, ◌==◌, if◌then◌else◌,
}
use fosketch.Cipher.{Evp, IsGcm, gcm_iv_size}
use fosketch.Message.{MessageType, Message, GcmContext, memory_of, pack_message, unpack_message}
use fosketch.Message.RoundTrip.{unpack_message-pack_message}

-- Four tests in a row.
gates : {A : Type 0} (a b c d : Bool) (x : A) → Option A
gates a b c d x =
    if a
    then none
    else (if not b then none else (if not c then none else (if not d then none else some x)))

gates-open :
    {A : Type 0} (a b c d : Bool) (x y : A)
    → gates a b c d x ≡ some y
    → (b ≡ true) × (d ≡ true) × (x ≡ y)
unfolding gates
gates-open true b c d x y e = absurd (cc)
gates-open false false c d x y e = absurd (cc)
gates-open false true false d x y e = absurd (cc)
gates-open false true true false x y e = absurd (cc)
gates-open false true true true x y e = (refl, refl, cc)

all_open :
    {A : Type 0} (s n : ℕ) (x : A)
    → 0 < n
    → s ≡ gcm_iv_size + n
    → gates (leb s 0) (s - gcm_iv_size == n) true (n == n) x ≡ some x
unfolding gates
all_open s n x pos e =
    let a : leb s 0 ≡ false = ground (arith, e) in
    let b : (s - gcm_iv_size == n) ≡ true = ground (arith, e) in
    let d : (n == n) ≡ true = ground arith in rw (a, b, d) refl

module _ (evp : Evp) (total_mem : ℕ) where
  -- Two sketches with two magic bytes each.
  abbrev pub two_sketches : ℕ
  two_sketches = 2 * (total_mem + 2)

  -- `has_memory` says whether `malloc` returns memory; `none` is the result `false`.
  unfoldable pub receive_sketches : (has_memory : Bool) → Message → GcmContext → Option (List ℕ)
  receive_sketches has_memory m ctx =
      let d = unpack_message evp m ctx in
      if leb m.payload_size 0
      then none
      else (if not (m.payload_size - gcm_iv_size == two_sketches)
          then none
          else (if not has_memory
              then none
              else (if not (d.ret == two_sketches) then none else some d.plaintext)))

  received :
      (has_memory : Bool) (m : Message) (ctx : GcmContext) (bytes : List ℕ)
      → receive_sketches has_memory m ctx ≡ some bytes
      → (m.payload_size - gcm_iv_size ≡ two_sketches)
        × ((unpack_message evp m ctx).ret ≡ two_sketches)
        × ((unpack_message evp m ctx).plaintext ≡ bytes)
  unfolding receive_sketches gates
  received has_memory m ctx bytes e =
      let d = unpack_message evp m ctx in
      let (size, ret, text) =
        gates-open (leb m.payload_size 0) (m.payload_size - gcm_iv_size == two_sketches) has_memory
          (d.ret == two_sketches) d.plaintext bytes e in
      (ground (arith, size), ground (arith, ret), text)

  -- The text and the tag that a message carries behind its IV.
  abbrev pub cipher_text_of : Message → List ℕ
  cipher_text_of m = take (m.payload_size - gcm_iv_size) (drop gcm_iv_size (memory_of m.payload))

  abbrev pub iv_in : Message → List ℕ
  iv_in m = take gcm_iv_size (memory_of m.payload)

  ret-accepted :
      (m : Message) (ctx : GcmContext)
      → (unpack_message evp m ctx).ret ≢ 0
      → evp.accepts ctx.key (iv_in m) (cipher_text_of m) m.mac ≡ true
  unfolding unpack_message
  ret-accepted m ctx some_text =
      elim (Bool-cases (evp.accepts ctx.key (iv_in m) (cipher_text_of m) m.mac)) [
        | inl e ↦ e
        | inr e ↦
            let nothing : (unpack_message evp m ctx).ret ≡ 0 = rw e refl in
            absurd (some_text nothing)
      ]

  -- Two sketches are taken from a message only if its tag is that of its text under the receiver's key,
  -- and only if both the size in its header and the size of what was decrypted are that of two sketches.
  pub receive_sketches_authentic :
      (has_memory : Bool) (m : Message) (ctx : GcmContext) (bytes : List ℕ)
      → receive_sketches has_memory m ctx ≡ some bytes
      → (evp.accepts ctx.key (iv_in m) (cipher_text_of m) m.mac ≡ true)
        × (m.payload_size ≡ gcm_iv_size + two_sketches)
        × (unpack_message evp m ctx ≡ record { plaintext = bytes; ret = two_sketches })
  receive_sketches_authentic has_memory m ctx bytes e =
      let (size, ret, text) = received has_memory m ctx bytes e in
      (ret-accepted m ctx (λ z. absurd (omega (arith, ret, z))), omega (arith, size), cc)

  -- Two sketches that a client packs are received as they are, under the same key. The payload has the
  -- size of two sketches, the IV has 12 bytes, and there is memory.
  pub receive_sketches-pack_message :
      (gcm : IsGcm evp) (m : Message) (kind : MessageType) (ctx ctx' : GcmContext)
      (fresh payload : List ℕ) (is_enclave : Bool)
      → length ctx.iv ≡ gcm_iv_size
      → length payload ≡ two_sketches
      → ctx'.key ≡ ctx.key
      → receive_sketches true
          (pack_message evp m kind ctx fresh (some payload) two_sketches is_enclave).message
          ctx'
        ≡ some payload
  unfolding receive_sketches pack_message gates
  receive_sketches-pack_message gcm m kind ctx ctx' fresh payload is_enclave iv_size full same =
      let back =
        unpack_message-pack_message evp gcm m kind ctx ctx' fresh payload two_sketches is_enclave
          iv_size full (omega arith) same in
      let size : (if two_sketches == 0 then 0 else gcm_iv_size + two_sketches)
          ≡ gcm_iv_size + two_sketches =
        ground arith in
      rw back (all_open _ two_sketches payload (omega arith) size)
