-- ===== src/Light/Blocks/Gathered.antt =====
-- What is gathered from the blocks of `OUpdateCUSketch_B` for one counter.
use native.Mathlib.Nat.{mod-eq_of_lt, mod-add-div}
use fosketch.Prelude.{
  ℕ, zero, suc, ◌+◌, ◌*◌, ◌/◌, ◌%◌, ◌^◌, ◌≤◌, ◌<◌, ◌≡◌, refl, sym, ap, ◌∙◌, Bool-cases, inl, inr,
  List, [], ◌∷◌, map, arith, ◌==◌, max, take, drop, get_or, if◌then◌else◌,
}
use fosketch.Oram.Block.{Block, erase_bid, dummy_flag}
use fosketch.Light.Gather.{number, below, best, best-none}
use fosketch.Light.Groups.{Laws}
use fosketch.Light.Blocks.{n_record, max_word, max_bytes, max_line, light_blocks, one_byte}

abbrev pub bid_of_block : Block → ℕ
bid_of_block b = b.bid

-- The counter `j` of a block.
abbrev pub byte_at : ℕ → Block → ℕ
byte_at j b = get_or b.payload j 0

max_word_self : (a b : ℕ) → a ≡ b → max_word a b ≡ b
max_word_self a b e =
    let whole = mod-add-div b 256 in
    let low : a % 256 ≡ b % 256 = ap (λ n. n % 256) e in
    let high : a / 256 ≡ b / 256 = ap (λ n. n / 256) e in omega (arith, whole, low, high)

get_or-max_bytes :
    (xs ys : List ℕ) (j : ℕ) → get_or (max_bytes xs ys) j 0 ≡ max (get_or xs j 0) (get_or ys j 0)
get_or-max_bytes [] ys j = omega arith
get_or-max_bytes (x ∷ xs) [] j = omega arith
get_or-max_bytes (x ∷ xs) (y ∷ ys) zero = refl
get_or-max_bytes (x ∷ xs) (y ∷ ys) (suc j) = get_or-max_bytes xs ys j

pub block-Laws : (j : ℕ) → Laws bid_of_block (byte_at j) max_line erase_bid dummy_flag
block-Laws j = record {
  key-join = λ a x e. max_word_self a.bid x.bid e;
  value-join = λ a x. get_or-max_bytes a.payload x.payload j;
  key-hide = λ x. refl;
}

pub get_or-one_byte :
    (n i cidx cnt j : ℕ)
    → j < n
    → get_or (one_byte n i cidx cnt) j 0 ≡ (if i + j == cidx then cnt else 0)
get_or-one_byte zero i cidx cnt j lt = absurd (omega arith)
get_or-one_byte (suc n) i cidx cnt zero lt = ground arith
get_or-one_byte (suc n) i cidx cnt (suc j) lt =
    let next : i + 1 + j ≡ i + suc j = omega arith in
    get_or-one_byte n (i + 1) cidx cnt j (omega arith) ∙ ap (λ k. if k == cidx then cnt else 0) next

module _ {ℓ} {A : Type ℓ} where
  pub get_or-take :
      (n : ℕ) (xs : List A) (j : ℕ) (d : A) → j < n → get_or (take n xs) j d ≡ get_or xs j d
  get_or-take zero xs j d lt = absurd (omega arith)
  get_or-take (suc n) [] j d lt = refl
  get_or-take (suc n) (x ∷ xs) zero d lt = refl
  get_or-take (suc n) (x ∷ xs) (suc j) d lt = get_or-take n xs j d (omega arith)

  pub get_or-drop :
      (n : ℕ) (xs : List A) (j : ℕ) (d : A) → get_or (drop n xs) j d ≡ get_or xs (n + j) d
  get_or-drop zero xs j d = ap (λ k. get_or xs k d) (omega arith)
  get_or-drop (suc n) [] j d = refl
  get_or-drop (suc n) (x ∷ xs) j d =
      let next : suc n + j ≡ suc (n + j) = omega arith in
      get_or-drop n xs j d ∙ sym (ap (λ k. get_or (x ∷ xs) k d) next)

module _ (j : ℕ) (in_block : j < n_record) where
  abbrev pub blocks_with : ℕ → List Block → ℕ
  blocks_with b = number bid_of_block (byte_at j) b

  abbrev pub best_byte : ℕ → List Block → ℕ
  best_byte b = best bid_of_block (byte_at j) b

  blocks_with-later :
      (b : ℕ) (pos : ℕ → ℕ) (n i : ℕ) (light : List ℕ)
      → i + n ≤ 2 ^ 16
      → b < i
      → blocks_with b (light_blocks pos n i light) ≡ 0
  blocks_with-later b pos zero i light fits lt = refl
  blocks_with-later b pos (suc n) i light fits lt =
      let id : i % 2 ^ 16 ≡ i = mod-eq_of_lt (omega arith) in
      ground (
        arith,
        id,
        blocks_with-later b pos n (i + 1) (drop n_record light) (omega arith) (omega arith),
      )

  -- Each block of the light part is there once, with its counters.
  pub blocks_with-light_blocks :
      (b : ℕ) (pos : ℕ → ℕ) (n i : ℕ) (light : List ℕ)
      → i + n ≤ 2 ^ 16
      → i ≤ b
      → b < i + n
      → blocks_with b (light_blocks pos n i light) ≡ 1
  blocks_with-light_blocks b pos zero i light fits le lt = absurd (omega arith)
  blocks_with-light_blocks b pos (suc n) i light fits le lt =
      let id : i % 2 ^ 16 ≡ i = mod-eq_of_lt (omega arith) in
      elim (Bool-cases (i == b)) [
        | inl e ↦
            let later =
              blocks_with-later b pos n (i + 1) (drop n_record light) (omega arith)
                (ground (arith, e)) in
            ground (arith, id, e, later)
        | inr e ↦
            let later =
              blocks_with-light_blocks b pos n (i + 1) (drop n_record light) (omega arith)
                (ground (arith, e)) (omega arith) in
            ground (arith, id, e, later)
      ]

  pub best_byte-light_blocks :
      (m : ℕ) (pos : ℕ → ℕ) (n i : ℕ) (light : List ℕ)
      → i + n ≤ 2 ^ 16
      → m < n
      → best_byte (i + m) (light_blocks pos n i light) ≡ get_or light (n_record * m + j) 0
  best_byte-light_blocks m pos zero i light fits lt = absurd (omega arith)
  best_byte-light_blocks zero pos (suc n) i light fits lt =
      let id : i % 2 ^ 16 ≡ i = mod-eq_of_lt (omega arith) in
      let rest = light_blocks pos n (i + 1) (drop n_record light) in
      let later =
        blocks_with-later (i + 0) pos n (i + 1) (drop n_record light) (omega arith) (omega arith) in
      let none_later = best-none bid_of_block (byte_at j) (i + 0) rest later in
      let here = get_or-take n_record light j 0 in_block in
      let same : n_record * 0 + j ≡ j = omega arith in
      ground (arith, id, none_later, here, ap (λ k. get_or light k 0) same)
  best_byte-light_blocks (suc m) pos (suc n) i light fits lt =
      let id : i % 2 ^ 16 ≡ i = mod-eq_of_lt (omega arith) in
      let next : i + 1 + m ≡ i + suc m = omega arith in
      let later =
        best_byte-light_blocks m pos n (i + 1) (drop n_record light) (omega arith) (omega arith) in
      let rest = light_blocks pos n (i + 1) (drop n_record light) in
      let there = get_or-drop n_record light (n_record * m + j) 0 in
      let same : n_record + (n_record * m + j) ≡ n_record * suc m + j = omega arith in
      let moved =
        sym (ap (λ k. best_byte k rest) next) ∙ later ∙ there ∙ ap (λ k. get_or light k 0) same in
      ground (arith, id, moved)

  pub below-light_blocks :
      (nb : ℕ) (pos : ℕ → ℕ) (n i : ℕ) (light : List ℕ)
      → nb ≤ 2 ^ 16
      → i + n ≤ nb
      → below bid_of_block (byte_at j) nb (light_blocks pos n i light) ≡ n
  below-light_blocks nb pos zero i light fits le = refl
  below-light_blocks nb pos (suc n) i light fits le =
      let id : i % 2 ^ 16 ≡ i = mod-eq_of_lt (omega arith) in
      ground
        (arith, id, below-light_blocks nb pos n (i + 1) (drop n_record light) fits (omega arith))

  pub blocks_with-padding :
      (b : ℕ) (junk : List Block) → b < dummy_flag → blocks_with b (map erase_bid junk) ≡ 0
  blocks_with-padding b [] lt = refl
  blocks_with-padding b (x ∷ junk) lt = ground (arith, blocks_with-padding b junk lt)

  pub below-padding :
      (nb : ℕ) (junk : List Block)
      → nb ≤ dummy_flag
      → below bid_of_block (byte_at j) nb (map erase_bid junk) ≡ 0
  below-padding nb [] le = refl
  below-padding nb (x ∷ junk) le = ground (arith, below-padding nb junk le)
