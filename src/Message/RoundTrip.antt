-- ===== src/Message/RoundTrip.antt =====
-- What is packed is unpacked, and no two messages carry one IV.
use mathlib.Core.List.{append-nil}
use fosketch.Prelude.{
  take-append_length, drop-append_length, ℕ, ◌+◌, ◌-◌, ◌<◌, ◌≡◌, refl, sym, ap, ◌∙◌, Bool, false,
  some, List, [], ◌++◌, arith, length, drop, ◌==◌, if◌then◌else◌,
}
use fosketch.Cipher.{Evp, IsGcm, gcm_iv_size, gcm_encrypt, gcm_decrypt}
use fosketch.Message.{
  MessageType, Message, GcmContext, copy_to, memory_of, pack_message, unpack_message,
}

-- The memory behind the payload once the IV and the cipher text are in it.
pub laid_out :
    (iv cipher memory : List ℕ)
    → length iv ≡ gcm_iv_size
    → copy_to gcm_iv_size cipher (copy_to 0 iv memory)
      ≡ iv ++ (cipher ++ drop (gcm_iv_size + length cipher) (copy_to 0 iv memory))
laid_out iv cipher memory e =
    ap (λ l. l ++ (cipher ++ drop (gcm_iv_size + length cipher) (copy_to 0 iv memory)))
      (take-append_length iv (drop (0 + length iv) memory) gcm_iv_size (omega (arith, e)))

module _ (evp : Evp) (gcm : IsGcm evp) where
  cipher_text :
      (plain key iv : List ℕ)
      → (gcm_encrypt evp plain key iv).ciphertext ≡ evp.encrypt_update key iv plain
  unfolding gcm_encrypt
  cipher_text plain key iv =
      ap (λ l. evp.encrypt_update key iv plain ++ l) (gcm.nothing_left key iv plain)
      ∙ append-nil (evp.encrypt_update key iv plain)

  tag_of : (plain key iv : List ℕ) → (gcm_encrypt evp plain key iv).mac ≡ evp.get_tag key iv plain
  unfolding gcm_encrypt
  tag_of plain key iv = refl

  -- Decryption of what was encrypted.
  gcm_decrypt-gcm_encrypt :
      (plain key iv : List ℕ)
      → let e = gcm_encrypt evp plain key iv in
        gcm_decrypt evp e.ciphertext e.mac key iv ≡ record { plaintext = plain; ret = length plain }
  unfolding gcm_decrypt
  gcm_decrypt-gcm_encrypt plain key iv =
      let whole : length plain + length {A = ℕ} [] ≡ length plain = omega arith in
      rw
        (
          cipher_text plain key iv,
          tag_of plain key iv,
          gcm.inverse key iv plain,
          gcm.own_tag key iv plain,
          gcm.nothing_more key iv (evp.encrypt_update key iv plain),
          append-nil plain,
          whole,
        )
        refl

  length-ciphertext :
      (plain key iv : List ℕ) → length (gcm_encrypt evp plain key iv).ciphertext ≡ length plain
  length-ciphertext plain key iv =
      ap length (cipher_text plain key iv) ∙ gcm.same_length key iv plain

  -- What `pack_message` packs, `unpack_message` gives back with its length, for a receiver with the same
  -- key and whatever IV. The payload is not empty, `size` is its length, and the IV has 12 bytes.
  pub unpack_message-pack_message :
      (m : Message) (kind : MessageType) (ctx ctx' : GcmContext) (fresh payload : List ℕ) (size : ℕ)
      (is_enclave : Bool)
      → length ctx.iv ≡ gcm_iv_size
      → length payload ≡ size
      → 0 < size
      → ctx'.key ≡ ctx.key
      → unpack_message evp
          (pack_message evp m kind ctx fresh (some payload) size is_enclave).message
          ctx'
        ≡ record { plaintext = payload; ret = size }
  unfolding pack_message unpack_message
  unpack_message-pack_message m kind ctx ctx' fresh payload size is_enclave iv_size full pos same =
      let memory = if is_enclave then memory_of m.payload else fresh in
      let cipher = (gcm_encrypt evp payload ctx.key ctx.iv).ciphertext in
      let rest = drop (gcm_iv_size + length cipher) (copy_to 0 ctx.iv memory) in
      let not_zero : (size == 0) ≡ false = ground (arith, pos) in
      let all : gcm_iv_size + size - gcm_iv_size ≡ size = omega arith in
      let cut_iv = take-append_length ctx.iv (cipher ++ rest) gcm_iv_size (sym iv_size) in
      let cut_rest = drop-append_length ctx.iv (cipher ++ rest) gcm_iv_size (sym iv_size) in
      let cut_cipher =
        take-append_length cipher rest size
          (sym (length-ciphertext payload ctx.key ctx.iv ∙ full)) in
      rw
        (
          laid_out ctx.iv cipher memory iv_size,
          not_zero,
          all,
          cut_iv,
          cut_rest,
          cut_cipher,
          same,
          gcm_decrypt-gcm_encrypt payload ctx.key ctx.iv,
          full,
        )
        refl
