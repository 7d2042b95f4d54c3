-- ===== src/Table/Places.antt =====
-- Where the loops of `OBuildSTable` and `BuildSTable_NO` put the heavy flows.
use native.Mathlib.Nat.{mod-lt, mod-eq_of_lt}
use mathlib.Core.Path.{subst}
use mathlib.Core.List.{append-nil, append_assoc}
use fosketch.Prelude.{
  ℕ, ◌+◌, ◌*◌, ◌%◌, ◌^◌, ◌≤◌, ◌<◌, ◌≡◌, refl, sym, ◌∙◌, true, false, Bool-cases, inl, inr, List, [],
  ◌∷◌, ◌++◌, arith, length, length-append, leb, get_or, get_or-get, set, ◌==◌,
}
use fosketch.Counts.{Item}
use fosketch.Table.{Shape, Table, Built, bucket_of, place_item, place_items}
use fosketch.Table.Filed.{Addressed, kept, Filed, spilled, Filed-stash, Filed-slot}

module _ (hash32 : ℕ → ℕ → ℕ) (st_hash : ℕ) (shape : Shape) where
  -- The items with the buckets that the loop sends them to.
  abbrev pub addressed : (rand : ℕ → ℕ) (i : ℕ) → List Item → List Addressed
  addressed rand i [] = []
  addressed rand i (x ∷ xs) =
      record { bucket = bucket_of hash32 st_hash shape (rand i) x; item = x }
      ∷ addressed rand (i + 1) xs

  -- What the loop leaves, where `spill` are the items that find their bucket full: with room for them
  -- in the stash each item is in its place, and they stand in the stash behind those that were there;
  -- without, a failure.
  pub record Placed (seen l : List Addressed) (stash spill : List Item) (b : Built) : Type 0 where
    pub fits :
        length stash + length spill ≤ shape.stash_num
        → (b.ok ≡ true) × Filed shape (seen ++ l) b.table × (b.table.stash ≡ stash ++ spill)
    pub fails : shape.stash_num < length stash + length spill → b.ok ≡ false

  -- One item in front of a loop that places the others.
  module _ (seen l : List Addressed) (a : Addressed) (stash spill : List Item) (b : Built) where
    after : (seen ++ a ∷ []) ++ l ≡ seen ++ a ∷ l
    after = append_assoc seen (a ∷ []) l

    Placed-slot : Placed (seen ++ a ∷ []) l stash spill b → Placed seen (a ∷ l) stash spill b
    Placed-slot p = record {
      fits = λ room.
          let (ok, f, s) = p.fits room in (ok, subst (λ m. Filed shape m b.table) after f, s);
      fails = p.fails;
    }

    Placed-spill :
        Placed (seen ++ a ∷ []) l (stash ++ a.item ∷ []) spill b
        → Placed seen (a ∷ l) stash (a.item ∷ spill) b
    Placed-spill p =
        let longer = length-append stash (a.item ∷ []) in
        record {
          fits = λ room.
              let (ok, f, s) = p.fits (omega (arith, longer)) in
              (
                ok,
                subst (λ m. Filed shape m b.table) after f,
                s ∙ append_assoc stash (a.item ∷ []) spill,
              );
          fails = λ over. p.fails (omega (arith, longer));
        }

  -- What the loop's body does, by its two tests.
  module _ (ind : ℕ) (x : Item) (t : Table) (count : ℕ) (at : get_or t.idc_list ind 0 ≡ count) where
    place_item-over :
        leb shape.bucket_size count ≡ true
        → leb shape.stash_num (length t.stash) ≡ true
        → place_item hash32 st_hash shape ind x t ≡ record { table = t; ok = false }
    unfolding place_item
    place_item-over full over = rw (at, full, over) refl

    place_item-spill :
        leb shape.bucket_size count ≡ true
        → leb shape.stash_num (length t.stash) ≡ false
        → place_item hash32 st_hash shape ind x t
          ≡ record { table = record t { stash = t.stash ++ x ∷ [] }; ok = true }
    unfolding place_item
    place_item-spill full room = rw (at, full, room) refl

    place_item-slot :
        leb shape.bucket_size count ≡ false
        → (count + 1) % 256 ≡ count + 1
        → place_item hash32 st_hash shape ind x t ≡ record {
          table = record t {
            slots = set t.slots (shape.bucket_size * ind + count) x;
            idc_list = set t.idc_list ind (count + 1);
          };
          ok = true;
        }
    unfolding place_item
    place_item-slot free byte = rw (at, free, byte) refl

  module _ (some_bucket : 0 < shape.bucket_num) (few : shape.bucket_num ≤ 2 ^ 16)
      (byte : shape.bucket_size < 256) where
    bucket_of_lt :
        (drawn : ℕ) (x : Item) → bucket_of hash32 st_hash shape drawn x < shape.bucket_num
    bucket_of_lt drawn x =
        let n = shape.bucket_num in
        let narrow = λ (m : ℕ) (lt : m < n).
          subst (λ k. k < n) (sym (mod-eq_of_lt {m = 2 ^ 16} (omega (arith, lt)))) lt in
        elim (Bool-cases (x.flow_id == 0)) [
          | inl e ↦ rw e (narrow (drawn % n) (mod-lt drawn some_bucket))
          | inr e ↦ rw e (
              narrow (hash32 x.flow_id st_hash % n) (mod-lt (hash32 x.flow_id st_hash) some_bucket))
        ]

    pub place_items-Placed :
        (xs : List Item) (rand : ℕ → ℕ) (i : ℕ) (seen : List Addressed) (t : Table)
        → Filed shape seen t
        → length t.stash ≤ shape.stash_num
        → let l = addressed rand i xs in
          Placed seen l t.stash
            (spilled shape seen l)
            (place_items hash32 st_hash shape rand i xs t)
    unfolding place_items
    place_items-Placed [] rand i seen t f le = record {
      fits = λ room.
          (refl, subst (λ l. Filed shape l t) (sym (append-nil seen)) f, sym (append-nil t.stash));
      fails = λ over. absurd (omega arith);
    }
    place_items-Placed (x ∷ xs) rand i seen t f le =
        let ind = bucket_of hash32 st_hash shape (rand i) x in
        let a : Addressed = record { bucket = ind; item = x } in
        let count = kept shape ind seen in
        let here = bucket_of_lt (rand i) x in
        let at : get_or t.idc_list ind 0 ≡ count =
          get_or-get t.idc_list ind 0 count (f.counted ind here) in
        let l = addressed rand (i + 1) xs in
        let seen' = seen ++ a ∷ [] in
        elim (Bool-cases (leb shape.bucket_size count)) [
          | inl full ↦ elim (Bool-cases (leb shape.stash_num (length t.stash))) [
            | inl over ↦
                rw (place_item-over ind x t count at full over, full)
                  (record { fits = λ room. absurd (ground (arith, over)); fails = λ o. refl })
            | inr room ↦
                let stash = t.stash ++ x ∷ [] in
                let t' = record t { stash = stash } in
                rw (place_item-spill ind x t count at full room, full)
                  (Placed-spill seen l a t.stash (spilled shape seen' l)
                    (place_items hash32 st_hash shape rand (i + 1) xs t')
                    (place_items-Placed xs rand (i + 1) seen' t'
                      (Filed-stash shape seen t a f stash (ground (arith, full)))
                      (ground (arith, room, length-append t.stash (x ∷ [])))))
          ]
          | inr free ↦
              let lt : count < shape.bucket_size = ground (arith, free) in
              let t' = record t {
                slots = set t.slots (shape.bucket_size * ind + count) x;
                idc_list = set t.idc_list ind (count + 1);
              } in
              rw (place_item-slot ind x t count at free (mod-eq_of_lt (omega (arith, lt))), free)
                (Placed-slot seen l a t.stash (spilled shape seen' l)
                  (place_items hash32 st_hash shape rand (i + 1) xs t')
                  (place_items-Placed xs rand (i + 1) seen' t' (Filed-slot shape seen t a f here lt)
                    le))
        ]
