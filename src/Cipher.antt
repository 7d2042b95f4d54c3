-- ===== src/Cipher.antt =====
-- The cipher of Common/CommonUtil.c: the counter, and the calls of OpenSSL's AES-GCM, which is the
-- parameter `Evp`. The bytes that a call writes are its result.
pub mod Counter
use fosketch.Prelude.{
  ℕ, zero, suc, ◌+◌, ◌%◌, ◌≡◌, Bool, true, false, List, [], ◌∷◌, ◌++◌, length, ◌==◌, if◌then◌else◌,
}

-- `GCM_IV_SIZE`
abbrev pub gcm_iv_size : ℕ
gcm_iv_size = 12

-- `incr_ctr`: the lowest byte first; it goes on to the next byte only when one wraps to 0.
unfoldable pub incr_ctr : (size : ℕ) → List ℕ → List ℕ
incr_ctr zero ctr = ctr
incr_ctr (suc size) [] = []
incr_ctr (suc size) (x ∷ ctr) =
    let y = (x + 1) % 256 in if y == 0 then y ∷ incr_ctr size ctr else y ∷ ctr

-- What the library does with a key, an IV and the bytes that it is given: the bytes that the update and
-- the final call write, the tag, and whether the final call accepts a tag.
pub record Evp : Type 0 where
  pub encrypt_update : (key iv plain : List ℕ) → List ℕ
  pub encrypt_final : (key iv plain : List ℕ) → List ℕ
  pub get_tag : (key iv plain : List ℕ) → List ℕ
  pub decrypt_update : (key iv cipher : List ℕ) → List ℕ
  pub decrypt_final : (key iv cipher : List ℕ) → List ℕ
  pub accepts : (key iv cipher tag : List ℕ) → Bool

-- GCM as documented: a stream cipher, whose final calls write nothing, and which accepts its own tag.
pub record IsGcm (evp : Evp) : Type 0 where
  pub same_length :
      (key iv plain : List ℕ) → length (evp.encrypt_update key iv plain) ≡ length plain
  pub inverse :
      (key iv plain : List ℕ) → evp.decrypt_update key iv (evp.encrypt_update key iv plain) ≡ plain
  pub nothing_left : (key iv plain : List ℕ) → evp.encrypt_final key iv plain ≡ []
  pub nothing_more : (key iv cipher : List ℕ) → evp.decrypt_final key iv cipher ≡ []
  pub own_tag :
      (key iv plain : List ℕ)
      → evp.accepts key iv (evp.encrypt_update key iv plain) (evp.get_tag key iv plain) ≡ true

pub record Encrypted : Type 0 where
  pub ciphertext : List ℕ
  pub ciphertext_len : ℕ
  pub mac : List ℕ

pub record Decrypted : Type 0 where
  pub plaintext : List ℕ
  pub ret : ℕ

module _ (evp : Evp) where
  unfoldable pub gcm_encrypt : (plaintext key iv : List ℕ) → Encrypted
  gcm_encrypt plaintext key iv =
      let body = evp.encrypt_update key iv plaintext in
      let rest = evp.encrypt_final key iv plaintext in
      record {
        ciphertext = body ++ rest;
        ciphertext_len = length body + length rest;
        mac = evp.get_tag key iv plaintext;
      }

  -- The plaintext is written before the tag is looked at; the result is its length, or 0.
  unfoldable pub gcm_decrypt : (ciphertext mac key iv : List ℕ) → Decrypted
  gcm_decrypt ciphertext mac key iv =
      let body = evp.decrypt_update key iv ciphertext in
      let rest = evp.decrypt_final key iv ciphertext in
      record {
        plaintext = body ++ rest;
        ret = if evp.accepts key iv ciphertext mac then length body + length rest else 0;
      }
