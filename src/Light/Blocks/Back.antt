-- ===== src/Light/Blocks/Back.antt =====
-- What `OUpdateCUSketch_B` copies back.
use fosketch.Prelude.{
  ℕ, zero, suc, ◌+◌, ◌*◌, ◌≤◌, ◌<◌, ◌≡◌, refl, sym, ap, ap₂, ◌∙◌, List, [], ◌∷◌, ◌++◌, arith,
  length, some, get_elem?, take, drop, get_or, take-append-drop, length-drop,
}
use fosketch.Oram.Block.{Block}
use fosketch.Light.Blocks.{n_record, bytes_of, copy_back}
use fosketch.Light.Blocks.Gathered.{get_or-drop}

bytes_of-eq :
    (n i : ℕ) (payload ys : List ℕ)
    → n ≤ length ys
    → ((j : ℕ) → j < n → get_or payload (i + j) 0 ≡ get_or ys j 0)
    → bytes_of n i payload ≡ take n ys
bytes_of-eq zero i payload ys fits same = refl
bytes_of-eq (suc n) i payload [] fits same = absurd (omega arith)
bytes_of-eq (suc n) i payload (y ∷ ys) fits same =
    let at : i + 0 ≡ i = omega arith in
    ap₂ ◌∷◌ (sym (ap (λ k. get_or payload k 0) at) ∙ same 0 (omega arith)) (
      bytes_of-eq n (i + 1) payload ys (omega arith) (λ j lt.
        let next : i + 1 + j ≡ i + suc j = omega arith in
        ap (λ k. get_or payload k 0) next ∙ same (suc j) (omega arith)))

-- Blocks that hold the bytes of a row, piece by piece, are copied back to that row.
pub copy_back-eq :
    (n : ℕ) (zs : List Block) (ys : List ℕ)
    → length ys ≡ n_record * n
    → ((b j : ℕ)
        → b < n
        → j < n_record
        → (z : Block) × (get_elem? zs b ≡ some z)
          × (get_or z.payload j 0 ≡ get_or ys (n_record * b + j) 0))
    → copy_back (take n zs) ≡ ys
copy_back-eq zero zs [] e same = refl
copy_back-eq zero zs (y ∷ ys) e same = absurd (omega (arith, e))
copy_back-eq (suc n) [] ys e same = let h = same 0 0 (omega arith) (omega arith) in absurd (cc)
copy_back-eq (suc n) (z ∷ zs) ys e same =
    let first : bytes_of n_record 0 z.payload ≡ take n_record ys =
      bytes_of-eq n_record 0 z.payload ys (omega (arith, e)) (λ j lt.
        let (z', at, byte) = same 0 j (omega arith) lt in
        let here : z ≡ z' = cc in
        let left : 0 + j ≡ j = omega arith in
        let right : n_record * 0 + j ≡ j = omega arith in
        ap (λ k. get_or z.payload k 0) left
        ∙ (ap (λ (b : Block). get_or b.payload j 0) here
            ∙ (byte ∙ ap (λ k. get_or ys k 0) right))) in
    let rest : copy_back (take n zs) ≡ drop n_record ys =
      copy_back-eq n zs (drop n_record ys) (omega (arith, e, length-drop n_record ys))
        (λ b j lt in_block.
          let (z', at, byte) = same (suc b) j (omega arith) in_block in
          let next : n_record * suc b + j ≡ n_record + (n_record * b + j) = omega arith in
          (
            z',
            at,
            byte
                ∙ (ap (λ k. get_or ys k 0) next
                    ∙ sym (get_or-drop n_record ys (n_record * b + j) 0)),
          )) in
    ap₂ ◌++◌ first rest ∙ take-append-drop n_record ys
