-- ===== src/Queue/Deque.antt =====
-- The queue as a list of messages from the top to the bottom.
use mathlib.Core.Path.{subst}
use fosketch.Prelude.{
  ℕ, ◌≡◌, ◌≢◌, refl, sym, ap, ◌∙◌, ◌⊎◌, inl, inr, List, [], ◌∷◌, ◌++◌, Option, none, some, arith,
  length, length-append,
}
use fosketch.Queue.{
  Heap, write, set_next, set_prev, unlink, Queue, queue_init, push_behind, push_back, push_before,
  push_front,
}
use fosketch.Queue.Segment.{
  first, last, Segment, Absent, Distinct, Segment-write, last-append, Segment-append, Segment-split,
  Absent-split, Distinct-snoc, Distinct-last,
}

-- The queue holds these messages, the top first.
pub record IsQueue (q : Queue) (xs : List ℕ) : Type 0 where
  pub top : q.top ≡ first xs none
  pub bottom : q.bottom ≡ last none xs
  pub count : q.n_msg ≡ length xs
  pub linked : Segment none xs none q.heap
  pub distinct : Distinct xs

pub queue_init-IsQueue : (h : Heap) → IsQueue (queue_init h) []
unfolding queue_init
queue_init-IsQueue h = record {
  top = refl;
  bottom = refl;
  count = refl;
  linked = tt;
  distinct = tt;
}

-- A list is empty, or it has a last element.
pub snoc-cases : (xs : List ℕ) → (xs ≡ []) ⊎ ((ys : List ℕ) × (b : ℕ) × (xs ≡ ys ++ b ∷ []))
snoc-cases [] = inl refl
snoc-cases (x ∷ xs) = elim (snoc-cases xs) [
  | inl e ↦ inr ([], x, ap (◌∷◌ x) e)
  | inr s ↦ inr (x ∷ s.0, s.1, ap (◌∷◌ x) s.2)
]

pub first-snoc :
    (ys : List ℕ) (b : ℕ) (zs : List ℕ) (after : Option ℕ)
    → first ((ys ++ b ∷ []) ++ zs) after ≡ first (ys ++ b ∷ []) after
first-snoc [] b zs after = refl
first-snoc (y ∷ ys) b zs after = refl

-- The memory after a message `m` is hung behind the bottom `b`.
module _ (h : Heap) (m b : ℕ) (apart : b ≢ m) where
  abbrev hung : Heap
  hung = set_next (set_prev (unlink h m) b (some m)) m (some b)

  hung_new : (hung m).next ≡ some b × (hung m).prev ≡ none
  unfolding write
  hung_new = (ground arith, ground arith)

  hung_old : (hung b).next ≡ (h b).next × (hung b).prev ≡ some m
  unfolding write
  hung_old = (ground arith, ground arith)

  hung-Segment :
      (before : Option ℕ) (xs : List ℕ) (after : Option ℕ)
      → Absent m xs
      → Absent b xs
      → Segment before xs after h
      → Segment before xs after hung
  hung-Segment before xs after no_m no_b s =
      Segment-write before xs after _ m _ no_m
        (Segment-write before xs after _ b _ no_b (Segment-write before xs after h m _ no_m s))

push_back-nil : (m : ℕ) (q : Queue) → IsQueue q [] → IsQueue (push_back m q) (m ∷ [])
unfolding push_back push_behind write
push_back-nil m q iq =
    let step = ap (λ o. push_behind o m (record q { heap = unlink q.heap m })) iq.bottom in
    rw step (record {
      top = refl;
      bottom = refl;
      count = omega (arith, iq.count);
      linked = (ground arith, ground arith, tt);
      distinct = (tt, tt);
    })

push_back-snoc :
    (m : ℕ) (q : Queue) (ys : List ℕ) (b : ℕ)
    → IsQueue q (ys ++ b ∷ [])
    → Absent m (ys ++ b ∷ [])
    → IsQueue (push_back m q) ((ys ++ b ∷ []) ++ m ∷ [])
unfolding push_back push_behind
push_back-snoc m q ys b iq no_m =
    let at_b : q.bottom ≡ some b = iq.bottom ∙ last-append none ys (b ∷ []) in
    let step = ap (λ o. push_behind o m (record q { heap = unlink q.heap m })) at_b in
    let away = Absent-split m ys (b ∷ []) no_m in
    let apart = away.1.0 in
    let s = Segment-split none ys (b ∷ []) none q.heap iq.linked in
    let before = Distinct-last ys b iq.distinct in
    let above = hung-Segment q.heap m b apart none ys (some b) away.0 before.0 s.0 in
    let old = hung_old q.heap m b apart in
    let new = hung_new q.heap m b apart in
    let all =
      Segment-append none ys (b ∷ []) (some m) (hung q.heap m b apart) above
        (old.0 ∙ s.1.0, old.1, tt) in
    let joined = last-append none ys (b ∷ []) in
    rw step (record {
      top = iq.top ∙ sym (first-snoc ys b (m ∷ []) none);
      bottom = sym (last-append none (ys ++ b ∷ []) (m ∷ []));
      count = omega (arith, iq.count, length-append (ys ++ b ∷ []) (m ∷ []));
      linked =
          Segment-append none (ys ++ b ∷ []) (m ∷ []) none (hung q.heap m b apart) all
            (new.0 ∙ sym joined, new.1, tt);
      distinct = Distinct-snoc (ys ++ b ∷ []) m iq.distinct no_m;
    })

pub push_back-IsQueue :
    (m : ℕ) (q : Queue) (xs : List ℕ)
    → IsQueue q xs
    → Absent m xs
    → IsQueue (push_back m q) (xs ++ m ∷ [])
push_back-IsQueue m q xs iq no_m = elim (snoc-cases xs) [
  | inl e ↦ rw e (push_back-nil m q (subst (IsQueue q) e iq))
  | inr s ↦
      rw (s.2) (push_back-snoc m q s.0 s.1 (subst (IsQueue q) s.2 iq) (subst (Absent m) s.2 no_m))
]

-- The memory after a message `m` is set before the top `t`.
module _ (h : Heap) (m t : ℕ) (apart : t ≢ m) where
  abbrev topped : Heap
  topped = set_prev (set_next (unlink h m) t (some m)) m (some t)

  topped_new : (topped m).next ≡ none × (topped m).prev ≡ some t
  unfolding write
  topped_new = (ground arith, ground arith)

  topped_old : (topped t).next ≡ some m × (topped t).prev ≡ (h t).prev
  unfolding write
  topped_old = (ground arith, ground arith)

  topped-Segment :
      (before : Option ℕ) (xs : List ℕ) (after : Option ℕ)
      → Absent m xs
      → Absent t xs
      → Segment before xs after h
      → Segment before xs after topped
  topped-Segment before xs after no_m no_t s =
      Segment-write before xs after _ m _ no_m
        (Segment-write before xs after _ t _ no_t (Segment-write before xs after h m _ no_m s))

pub push_front-IsQueue :
    (m : ℕ) (q : Queue) (xs : List ℕ)
    → IsQueue q xs
    → Absent m xs
    → IsQueue (push_front m q) (m ∷ xs)
unfolding push_front push_before write
push_front-IsQueue m q [] iq no_m =
    let step = ap (λ o. push_before o m (record q { heap = unlink q.heap m })) iq.top in
    rw step (record {
      top = refl;
      bottom = refl;
      count = omega (arith, iq.count);
      linked = (ground arith, ground arith, tt);
      distinct = (tt, tt);
    })
push_front-IsQueue m q (t ∷ xs) iq no_m =
    let step = ap (λ o. push_before o m (record q { heap = unlink q.heap m })) iq.top in
    let old = topped_old q.heap m t no_m.0 in
    let new = topped_new q.heap m t no_m.0 in
    let below =
      topped-Segment q.heap m t no_m.0 (some t) xs none no_m.1 iq.distinct.0 iq.linked.2 in
    rw step (record {
      top = refl;
      bottom = iq.bottom;
      count = omega (arith, iq.count);
      linked = (new.0, new.1, (old.0, old.1 ∙ iq.linked.1, below));
      distinct = (no_m, iq.distinct);
    })
