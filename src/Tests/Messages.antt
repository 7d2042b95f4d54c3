-- ===== src/Tests/Messages.antt =====
-- Messages under a cipher that leaves the text as it is and takes its first byte for the tag.
use fosketch.Prelude.{
  ℕ, ◌≡◌, ◌≢◌, refl, true, false, none, some, List, [], ◌∷◌, ◌++◌, arith, replicate, ◌==◌, get_or,
  ==_iff, ap, get_elem?,
}
use fosketch.Cipher.{Evp, IsGcm, incr_ctr}
use fosketch.Message.{Message, GcmContext, stat, flow_size, pack_message, unpack_message}
use fosketch.Message.RoundTrip.{unpack_message-pack_message}
use fosketch.Epoch.Receive.{
  receive_sketches, iv_in, cipher_text_of, receive_sketches_authentic,
  receive_sketches-pack_message,
}
use fosketch.Message.Nonces.{Request, pack_all, iv_of, iv_of-ne}

abbrev plain_evp : Evp
plain_evp = record {
  encrypt_update = λ key iv plain. plain;
  encrypt_final = λ key iv plain. [];
  get_tag = λ key iv plain. get_or plain 0 0 ∷ [];
  decrypt_update = λ key iv cipher. cipher;
  decrypt_final = λ key iv cipher. [];
  accepts = λ key iv cipher tag. get_or cipher 0 0 == get_or tag 0 0;
}

plain_evp-IsGcm : IsGcm plain_evp
plain_evp-IsGcm = record {
  same_length = λ key iv plain. refl;
  inverse = λ key iv plain. refl;
  nothing_left = λ key iv plain. refl;
  nothing_more = λ key iv cipher. refl;
  own_tag = λ key iv plain. (==_iff (get_or plain 0 0) (get_or plain 0 0)).1 refl;
}

-- The counter's low byte is about to wrap.
abbrev context : GcmContext
context = record { key = 1 ∷ 2 ∷ []; iv = 255 ∷ 0 ∷ 0 ∷ 0 ∷ 0 ∷ 0 ∷ 0 ∷ 0 ∷ 0 ∷ 0 ∷ 0 ∷ 0 ∷ [] }

abbrev empty_message : Message
empty_message = record { kind = stat; payload_size = 0; mac = []; payload = none }

abbrev text : List ℕ
text = 10 ∷ 20 ∷ 30 ∷ []

incr_ctr_run : incr_ctr 3 (255 ∷ 255 ∷ 7 ∷ []) ≡ 0 ∷ 0 ∷ 8 ∷ []
unfolding incr_ctr
incr_ctr_run = refl

unpack_message-pack_message_example :
    unpack_message plain_evp
      (pack_message plain_evp empty_message flow_size context
        (replicate 20 0)
        (some text)
        3
        false).message
      context
    ≡ record { plaintext = text; ret = 3 }
unpack_message-pack_message_example =
    unpack_message-pack_message plain_evp plain_evp-IsGcm empty_message flow_size context context
      (replicate 20 0) text 3 false refl refl (omega arith) refl

abbrev request : Request
request = record {
  message = empty_message;
  kind = flow_size;
  fresh = replicate 20 0;
  payload = text;
  is_enclave = false;
}

-- What two requests give.
abbrev packed : (iv : List ℕ) → Message
packed iv = record {
  kind = flow_size;
  payload_size = 15;
  mac = 10 ∷ [];
  payload = some (iv ++ (text ++ replicate 5 0));
}

abbrev next_iv : List ℕ
next_iv = 0 ∷ 1 ∷ 0 ∷ 0 ∷ 0 ∷ 0 ∷ 0 ∷ 0 ∷ 0 ∷ 0 ∷ 0 ∷ 0 ∷ []

pack_all_run :
    pack_all plain_evp (request ∷ request ∷ []) context ≡ packed context.iv ∷ packed next_iv ∷ []
unfolding pack_all
pack_all_run = refl

iv_of-ne_example : iv_of (packed next_iv) ≢ iv_of (packed context.iv)
iv_of-ne_example =
    iv_of-ne plain_evp (request ∷ request ∷ []) context 0 1 (packed context.iv) (packed next_iv)
      refl
      (
        omega arith,
        (
          omega arith,
          (
            omega arith,
            (
              omega arith,
              (
                omega arith,
                (
                  omega arith,
                  (
                    omega arith,
                    (omega arith, (omega arith, (omega arith, (omega arith, (omega arith, tt))))),
                  ),
                ),
              ),
            ),
          ),
        ),
      )
      (ap (λ l. get_elem? l 0) pack_all_run) (ap (λ l. get_elem? l 1) pack_all_run) (omega arith)
      (omega arith)

-- Two sketches without counters: four magic bytes.
abbrev magic : List ℕ
magic = 8 ∷ 9 ∷ 8 ∷ 9 ∷ []

abbrev sent : Message
sent =
    (pack_message plain_evp empty_message flow_size context (replicate 20 0) (some magic) 4
      false).message

receive_sketches-pack_message_example : receive_sketches plain_evp 0 true sent context ≡ some magic
receive_sketches-pack_message_example =
    receive_sketches-pack_message plain_evp 0 plain_evp-IsGcm empty_message flow_size context
      context (replicate 20 0) magic false refl refl refl

receive_sketches_authentic_example :
    (plain_evp.accepts context.key
        (iv_in plain_evp 0 sent)
        (cipher_text_of plain_evp 0 sent)
        sent.mac
      ≡ true)
    × (sent.payload_size ≡ 16)
    × (unpack_message plain_evp sent context ≡ record { plaintext = magic; ret = 4 })
receive_sketches_authentic_example =
    receive_sketches_authentic plain_evp 0 true sent context magic
      receive_sketches-pack_message_example
