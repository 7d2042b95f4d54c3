-- ===== src/Sorter/Bytes.antt =====
-- The first set of `OMoveEx` of FOSketch/Enclave/OPrimitive.h, which is the one that is built, as a
-- move of bytes: what stands at `px` and behind it, and what stands at `py`.
use fosketch.Prelude.{
  ℕ, zero, suc, ◌+◌, ◌*◌, ◌/◌, ◌≡◌, refl, ap, ◌∙◌, sym, Bool, true, false, List, [], ◌∷◌, ◌++◌,
  take, drop, take-append-drop, ◌⊎◌, inl, inr, ltb, ◌==◌, if◌then◌else◌, arith,
}
use mathlib.Core.List.{append_assoc}
use fosketch.Sorter.Exchange.{o_move}

-- The loop: a register of 32 bytes in each round, of either side.
pub move_chunks : ℕ → List ℕ → List ℕ → Bool → List ℕ
move_chunks zero px py cond = px
move_chunks (suc rounds) px py cond =
    take 32 (o_move py px cond) ++ move_chunks rounds (drop 32 px) (drop 32 py) cond

unfoldable pub o_move_ex : (px py : List ℕ) (cond : Bool) (size : ℕ) → List ℕ
unfolding move_chunks
o_move_ex px py cond size =
    if ltb size 16
    then px
    else if size == 16
    then take 16 (o_move py px cond) ++ drop 16 px
    else move_chunks ((size + 31) / 32) px py cond

module _ {ℓ} {A : Type ℓ} where
  take-nil : (n : ℕ) → take {A = A} n [] ≡ []
  take-nil zero = refl
  take-nil (suc n) = refl

  drop-nil : (n : ℕ) → drop {A = A} n [] ≡ []
  drop-nil zero = refl
  drop-nil (suc n) = refl

  take-add : (a b : ℕ) (xs : List A) → take (a + b) xs ≡ take a xs ++ take b (drop a xs)
  take-add zero b xs = ap (λ n. take n xs) (omega arith)
  take-add (suc a) b [] = take-nil (suc a + b) ∙ sym (take-nil b)
  take-add (suc a) b (x ∷ xs) =
      let n : suc a + b ≡ suc (a + b) = omega arith in
      ap (λ n. take n (x ∷ xs)) n ∙ ap (◌∷◌ x) (take-add a b xs)

  drop-add : (a b : ℕ) (xs : List A) → drop (a + b) xs ≡ drop b (drop a xs)
  drop-add zero b xs = ap (λ n. drop n xs) (omega arith)
  drop-add (suc a) b [] = drop-nil (suc a + b) ∙ sym (drop-nil b)
  drop-add (suc a) b (x ∷ xs) =
      let n : suc a + b ≡ suc (a + b) = omega arith in ap (λ n. drop n (x ∷ xs)) n ∙ drop-add a b xs

move_chunks-false : (rounds : ℕ) (px py : List ℕ) → move_chunks rounds px py false ≡ px
unfolding move_chunks
move_chunks-false zero px py = refl
move_chunks-false (suc rounds) px py =
    ap (λ l. take 32 px ++ l) (move_chunks-false rounds (drop 32 px) (drop 32 py))
    ∙ take-append-drop 32 px

move_chunks-true :
    (rounds n : ℕ) (px py : List ℕ)
    → n ≡ 32 * rounds
    → move_chunks rounds px py true ≡ take n py ++ drop n px
unfolding move_chunks
move_chunks-true zero n px py e = let none_left : n ≡ 0 = omega (arith, e) in rw none_left refl
move_chunks-true (suc rounds) n px py e =
    let m = 32 * rounds in
    let split : n ≡ 32 + m = omega (arith, e) in
    rw (split, take-add 32 m py, drop-add 32 m px)
      (ap (λ l. take 32 py ++ l) (move_chunks-true rounds m (drop 32 px) (drop 32 py) refl)
        ∙ sym (append_assoc (take 32 py) (take m (drop 32 py)) (drop m (drop 32 px))))

move_chunks-lem :
    (rounds n : ℕ) (px py : List ℕ) (cond : Bool)
    → n ≡ 32 * rounds
    → move_chunks rounds px py cond ≡ (if cond then take n py ++ drop n px else px)
move_chunks-lem rounds n px py true e = move_chunks-true rounds n px py e
move_chunks-lem rounds n px py false e = move_chunks-false rounds px py

-- For 16 bytes, or a multiple of 32, `OMoveEx` copies that many bytes if the condition holds, touches
-- nothing behind them, and changes nothing if it does not hold.
pub o_move_ex_lem :
    (px py : List ℕ) (cond : Bool) (size n : ℕ)
    → (size ≡ 16) ⊎ (size ≡ 32 * suc n)
    → o_move_ex px py cond size ≡ (if cond then take size py ++ drop size px else px)
unfolding o_move_ex
o_move_ex_lem px py true size n (inl e) = rw e refl
o_move_ex_lem px py false size n (inl e) = rw e (take-append-drop 16 px)
o_move_ex_lem px py cond size n (inr e) =
    let large : ltb size 16 ≡ false = ground (arith, e) in
    let more : (size == 16) ≡ false = ground (arith, e) in
    rw (large, more) (move_chunks-lem ((size + 31) / 32) size px py cond (omega (arith, e)))
