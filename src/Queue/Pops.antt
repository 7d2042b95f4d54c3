-- ===== src/Queue/Pops.antt =====
-- Taking a message off the top or the bottom of the queue.
use mathlib.Core.Path.{subst}
use fosketch.Prelude.{
  ℕ, ◌≡◌, refl, sym, ap, ◌∙◌, inl, inr, List, [], ◌∷◌, ◌++◌, none, some, arith, length-append,
}
use fosketch.Queue.{write, Queue, take_top, pop_top, pop_front, take_bottom, pop_bottom, pop_back}
use fosketch.Queue.Segment.{
  first, last, Segment-write, last-append, Segment-append, Segment-split, Absent-split,
  Distinct-last,
}
use fosketch.Queue.Deque.{IsQueue, snoc-cases, first-snoc}

take_top-IsQueue :
    (q : Queue) (x : ℕ) (xs : List ℕ)
    → IsQueue q (x ∷ xs)
    → IsQueue (take_top x (first xs none) q) xs
unfolding take_top write
take_top-IsQueue q x [] iq = record {
  top = refl;
  bottom = refl;
  count = omega (arith, iq.count);
  linked = tt;
  distinct = tt;
}
take_top-IsQueue q x (y ∷ ys) iq =
    let apart = iq.distinct.0.0 in
    record {
      top = refl;
      bottom = iq.bottom;
      count = omega (arith, iq.count);
      linked = (
        ground (arith, apart),
        ground (arith, apart, iq.linked.2.1),
        Segment-write (some y) ys none _ x _ iq.distinct.0.1
            (Segment-write (some y) ys none q.heap y _ iq.distinct.1.0 iq.linked.2.2),
      );
      distinct = iq.distinct.1;
    }

pub pop_front-IsQueue :
    (q : Queue) (x : ℕ) (xs : List ℕ)
    → IsQueue q (x ∷ xs)
    → ((pop_front q).msg ≡ some x) × IsQueue (pop_front q).queue xs
unfolding pop_front pop_top
pop_front-IsQueue q x xs iq =
    let step = ap (λ o. pop_top o q) iq.top in
    let at_rest = ap (λ r. take_top x r q) iq.linked.1 in
    rw step (refl, rw at_rest (take_top-IsQueue q x xs iq))

take_bottom-nil : (q : Queue) (b : ℕ) → IsQueue q (b ∷ []) → IsQueue (take_bottom b none q) []
unfolding take_bottom
take_bottom-nil q b iq = record {
  top = refl;
  bottom = refl;
  count = omega (arith, iq.count);
  linked = tt;
  distinct = tt;
}

take_bottom-snoc :
    (q : Queue) (zs : List ℕ) (c b : ℕ)
    → IsQueue q ((zs ++ c ∷ []) ++ b ∷ [])
    → IsQueue (take_bottom b (some c) q) (zs ++ c ∷ [])
unfolding take_bottom write
take_bottom-snoc q zs c b iq =
    let outer = Distinct-last (zs ++ c ∷ []) b iq.distinct in
    let inner = Distinct-last zs c outer.1 in
    let away = Absent-split b zs (c ∷ []) outer.0 in
    let apart = away.1.0 in
    let s = (Segment-split none (zs ++ c ∷ []) (b ∷ []) none q.heap iq.linked).0 in
    let parts = Segment-split none zs (c ∷ []) (some b) q.heap s in
    let above =
      Segment-write none zs (some c) _ b _ away.0
        (Segment-write none zs (some c) q.heap c _ inner.0 parts.0) in
    record {
      top = iq.top ∙ first-snoc zs c (b ∷ []) none;
      bottom = sym (last-append none zs (c ∷ []));
      count =
          omega (arith, iq.count, length-append (zs ++ c ∷ []) (b ∷ []), length-append zs (c ∷ []));
      linked =
          Segment-append none zs (c ∷ []) none _ above
            (ground (arith, apart, parts.1.0), ground (arith, apart), tt);
      distinct = outer.1;
    }

take_bottom-IsQueue :
    (q : Queue) (ys : List ℕ) (b : ℕ)
    → IsQueue q (ys ++ b ∷ [])
    → IsQueue (take_bottom b (last none ys) q) ys
take_bottom-IsQueue q ys b iq = elim (snoc-cases ys) [
  | inl e ↦ rw e (take_bottom-nil q b (subst (λ l. IsQueue q (l ++ b ∷ [])) e iq))
  | inr s ↦
      let iq' = subst (λ l. IsQueue q (l ++ b ∷ [])) s.2 iq in
      rw (s.2, last-append none s.0 (s.1 ∷ [])) (take_bottom-snoc q s.0 s.1 b iq')
]

pub pop_back-IsQueue :
    (q : Queue) (ys : List ℕ) (b : ℕ)
    → IsQueue q (ys ++ b ∷ [])
    → ((pop_back q).msg ≡ some b) × IsQueue (pop_back q).queue ys
unfolding pop_back pop_bottom
pop_back-IsQueue q ys b iq =
    let s = (Segment-split none ys (b ∷ []) none q.heap iq.linked).1 in
    let step = ap (λ o. pop_bottom o q) (iq.bottom ∙ last-append none ys (b ∷ [])) in
    let at_rest = ap (λ r. take_bottom b r q) s.0 in
    rw step (refl, rw at_rest (take_bottom-IsQueue q ys b iq))
