-- ===== src/Queue/Segment.antt =====
-- Stretches of linked messages, from the top of the queue to its bottom.
use fosketch.Prelude.{ℕ, ◌≡◌, ◌≢◌, refl, sym, ◌∙◌, List, [], ◌∷◌, ◌++◌, Option, some, arith}
use fosketch.Queue.{Links, Heap, write}

-- The first message of a list, or what comes after the list.
abbrev pub first : List ℕ → Option ℕ → Option ℕ
first [] after = after
first (x ∷ xs) after = some x

-- The last message of a list, or what comes before the list.
abbrev pub last : Option ℕ → List ℕ → Option ℕ
last before [] = before
last before (x ∷ xs) = last (some x) xs

-- The messages of the list are linked in this order, between `before` and `after`.
abbrev pub Segment : Option ℕ → List ℕ → Option ℕ → Heap → Type 0
Segment before [] after h = Unit {0}
Segment before (x ∷ xs) after h =
    ((h x).next ≡ before) × ((h x).prev ≡ first xs after) × Segment (some x) xs after h

abbrev pub Absent : ℕ → List ℕ → Type 0
Absent m [] = Unit {0}
Absent m (x ∷ xs) = (x ≢ m) × Absent m xs

-- No message is queued twice.
abbrev pub Distinct : List ℕ → Type 0
Distinct [] = Unit {0}
Distinct (x ∷ xs) = Absent x xs × Distinct xs

pub write-other : (h : Heap) (p a : ℕ) (l : Links) → a ≢ p → write h p l a ≡ h a
unfolding write
write-other h p a l differ = ground arith

pub write_self : (h : Heap) (p : ℕ) (l : Links) → write h p l p ≡ l
unfolding write
write_self h p l = ground arith

-- A write elsewhere leaves a stretch alone.
pub Segment-write :
    (before : Option ℕ) (xs : List ℕ) (after : Option ℕ) (h : Heap) (p : ℕ) (l : Links)
    → Absent p xs
    → Segment before xs after h
    → Segment before xs after (write h p l)
Segment-write before [] after h p l absent s = tt
Segment-write before (x ∷ xs) after h p l absent s =
    rw (write-other h p x l absent.0) (s.0, s.1, Segment-write (some x) xs after h p l absent.1 s.2)

pub first-append :
    (xs ys : List ℕ) (after : Option ℕ) → first (xs ++ ys) after ≡ first xs (first ys after)
first-append [] ys after = refl
first-append (x ∷ xs) ys after = refl

pub last-append :
    (before : Option ℕ) (xs ys : List ℕ) → last before (xs ++ ys) ≡ last (last before xs) ys
last-append before [] ys = refl
last-append before (x ∷ xs) ys = last-append (some x) xs ys

pub Segment-append :
    (before : Option ℕ) (xs ys : List ℕ) (after : Option ℕ) (h : Heap)
    → Segment before xs (first ys after) h
    → Segment (last before xs) ys after h
    → Segment before (xs ++ ys) after h
Segment-append before [] ys after h s t = t
Segment-append before (x ∷ xs) ys after h s t =
    (s.0, s.1 ∙ sym (first-append xs ys after), Segment-append (some x) xs ys after h s.2 t)

pub Segment-split :
    (before : Option ℕ) (xs ys : List ℕ) (after : Option ℕ) (h : Heap)
    → Segment before (xs ++ ys) after h
    → Segment before xs (first ys after) h × Segment (last before xs) ys after h
Segment-split before [] ys after h s = (tt, s)
Segment-split before (x ∷ xs) ys after h s =
    let rest = Segment-split (some x) xs ys after h s.2 in
    ((s.0, s.1 ∙ first-append xs ys after, rest.0), rest.1)

pub Absent-append : (m : ℕ) (xs ys : List ℕ) → Absent m xs → Absent m ys → Absent m (xs ++ ys)
Absent-append m [] ys p q = q
Absent-append m (x ∷ xs) ys p q = (p.0, Absent-append m xs ys p.1 q)

pub Absent-split : (m : ℕ) (xs ys : List ℕ) → Absent m (xs ++ ys) → Absent m xs × Absent m ys
Absent-split m [] ys p = (tt, p)
Absent-split m (x ∷ xs) ys p = let rest = Absent-split m xs ys p.1 in ((p.0, rest.0), rest.1)

pub Distinct-snoc : (xs : List ℕ) (m : ℕ) → Distinct xs → Absent m xs → Distinct (xs ++ m ∷ [])
Distinct-snoc [] m d a = (tt, tt)
Distinct-snoc (x ∷ xs) m d a =
    let apart : m ≢ x = λ e. a.0 (sym e) in
    (Absent-append x xs (m ∷ []) d.0 (apart, tt), Distinct-snoc xs m d.1 a.1)

-- The bottom of `xs` followed by `b` is apart from all before it.
pub Distinct-last : (xs : List ℕ) (b : ℕ) → Distinct (xs ++ b ∷ []) → Absent b xs × Distinct xs
Distinct-last [] b d = (tt, tt)
Distinct-last (x ∷ xs) b d =
    let rest = Distinct-last xs b d.1 in
    let apart = (Absent-split x xs (b ∷ []) d.0) in
    (((λ e. apart.1.0 (sym e)), rest.0), (apart.0, rest.1))
