-- ===== src/Message/Nonces.antt =====
-- The IVs of the messages that one context packs.
use native.Mathlib.Nat.{pow-suc}
use fosketch.Prelude.{
  take-append_length, ℕ, zero, suc, ◌+◌, ◌-◌, ◌^◌, ◌<◌, ◌≡◌, ◌≢◌, refl, sym, ap, ◌∙◌, Bool, some,
  List, [], ◌∷◌, ◌++◌, arith, length, take, drop, get_elem?, AreBytes, if◌then◌else◌,
}
use fosketch.Cipher.{Evp, gcm_iv_size, gcm_encrypt, incr_ctr}
use fosketch.Cipher.Counter.{span, tick, tick-ne, incr_ctr-AreBytes, length-incr_ctr, span-incr_ctr}
use fosketch.Message.{MessageType, Message, GcmContext, copy_to, memory_of, Packed, pack_message}
use fosketch.Message.RoundTrip.{laid_out}

-- What one call of `pack_message` with a payload is given.
pub record Request : Type 0 where
  pub message : Message
  pub kind : MessageType
  pub fresh : List ℕ
  pub payload : List ℕ
  pub is_enclave : Bool

-- The IV that a message carries.
abbrev pub iv_of : Message → List ℕ
iv_of m = take gcm_iv_size (memory_of m.payload)

tick-add : (a b : ℕ) (bytes : List ℕ) → tick (a + b) bytes ≡ tick b (tick a bytes)
unfolding tick
tick-add zero b bytes = let z : 0 + b ≡ b = omega arith in ap (λ n. tick n bytes) z
tick-add (suc a) b bytes =
    let n : suc a + b ≡ suc (a + b) = omega arith in
    ap (λ n. tick n bytes) n ∙ tick-add a b (incr_ctr (length bytes) bytes)

tick-AreBytes : (k : ℕ) (bytes : List ℕ) → AreBytes bytes → AreBytes (tick k bytes)
unfolding tick
tick-AreBytes zero bytes h = h
tick-AreBytes (suc k) bytes h =
    tick-AreBytes k (incr_ctr (length bytes) bytes) (incr_ctr-AreBytes (length bytes) bytes h)

span-tick : (k : ℕ) (bytes : List ℕ) → span (tick k bytes) ≡ span bytes
unfolding tick
span-tick zero bytes = refl
span-tick (suc k) bytes =
    span-tick k (incr_ctr (length bytes) bytes) ∙ span-incr_ctr (length bytes) bytes

span-eq : (bytes : List ℕ) → span bytes ≡ 256 ^ length bytes
span-eq [] = refl
span-eq (x ∷ bytes) = omega (arith, span-eq bytes, pow-suc 256 (length bytes))

module _ (evp : Evp) where
  abbrev pub pack_request : Request → GcmContext → Packed
  pack_request r ctx =
      pack_message evp r.message r.kind ctx r.fresh (some r.payload) (length r.payload) r.is_enclave

  -- A sequence of calls with one context.
  unfoldable pub pack_all : List Request → GcmContext → List Message
  unfolding pack_message
  pack_all [] ctx = []
  pack_all (r ∷ rs) ctx = let p = pack_request r ctx in p.message ∷ pack_all rs p.ctx

  iv_of-pack_request :
      (r : Request) (ctx : GcmContext)
      → length ctx.iv ≡ gcm_iv_size
      → iv_of (pack_request r ctx).message ≡ ctx.iv
  unfolding pack_message
  iv_of-pack_request r ctx iv_size =
      let memory = if r.is_enclave then memory_of r.message.payload else r.fresh in
      let cipher = (gcm_encrypt evp r.payload ctx.key ctx.iv).ciphertext in
      let rest = drop (gcm_iv_size + length cipher) (copy_to 0 ctx.iv memory) in
      rw (laid_out ctx.iv cipher memory iv_size)
        (take-append_length ctx.iv (cipher ++ rest) gcm_iv_size (sym iv_size))

  -- Message `i` carries the counter after `i` steps.
  iv_of-pack_all :
      (rs : List Request) (ctx : GcmContext) (i : ℕ) {m : Message}
      → length ctx.iv ≡ gcm_iv_size
      → get_elem? (pack_all rs ctx) i ≡ some m
      → iv_of m ≡ tick i ctx.iv
  unfolding pack_all tick
  iv_of-pack_all [] ctx i iv_size e = absurd (cc)
  iv_of-pack_all (r ∷ rs) ctx zero {m} iv_size e =
      let same : (pack_request r ctx).message ≡ m = cc in
      rw (← same) (iv_of-pack_request r ctx iv_size)
  iv_of-pack_all (r ∷ rs) ctx (suc i) iv_size e =
      let n = gcm_iv_size in
      rw iv_size
        (iv_of-pack_all rs (pack_request r ctx).ctx i (length-incr_ctr n ctx.iv ∙ iv_size) e)

  -- Of the messages that one context packs, two that are less than 2^96 apart carry different IVs. The
  -- IV that the context starts with has 12 bytes.
  pub iv_of-ne :
      (rs : List Request) (ctx : GcmContext) (i j : ℕ) (m m' : Message)
      → length ctx.iv ≡ gcm_iv_size
      → AreBytes ctx.iv
      → get_elem? (pack_all rs ctx) i ≡ some m
      → get_elem? (pack_all rs ctx) j ≡ some m'
      → i < j
      → j < i + 2 ^ 96
      → iv_of m' ≢ iv_of m
  iv_of-ne rs ctx i j m m' iv_size bytes ei ej lt near same =
      let at_i = iv_of-pack_all rs ctx i iv_size ei in
      let at_j = iv_of-pack_all rs ctx j iv_size ej in
      let k = j - i in
      let sum : i + k ≡ j = omega arith in
      let on = sym (ap (λ n. tick n ctx.iv) sum) ∙ tick-add i k ctx.iv in
      let back : tick k (tick i ctx.iv) ≡ tick i ctx.iv = sym on ∙ (sym at_j ∙ (same ∙ at_i)) in
      let many : span (tick i ctx.iv) ≡ 256 ^ 12 =
        span-tick i ctx.iv ∙ (span-eq ctx.iv ∙ ap (λ n. 256 ^ n) iv_size) in
      tick-ne k (tick i ctx.iv) (tick-AreBytes i ctx.iv bytes) (omega arith) (omega (arith, many))
        back
