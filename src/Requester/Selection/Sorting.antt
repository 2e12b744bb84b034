-- ===== src/Requester/Selection/Sorting.antt =====
-- One sort by rank that does what `sort.Slice` documents, for runs on concrete data.
use mathlib.Core.List.{Permᴰ}
use mathlib.Core.List.Permᴰ
use bacalhau.Base.{
  ◌≡◌, refl, true, false, List, [], ◌∷◌, All, All-perm, arith, if◌then◌else◌, inl, inr, Bool-cases,
}
use bacalhau.Requester.World.{NodeRank, ℤ, pos, negsuc}
use bacalhau.Requester.Selection.Best.{at_most, IsDescending, Sorts}

unfoldable pub insert : NodeRank → List NodeRank → List NodeRank
unfolding at_most
insert n [] = n ∷ []
insert n (m ∷ ms) = let rest = insert n ms in if at_most m.rank n.rank then n ∷ m ∷ ms else m ∷ rest

unfoldable pub sort_down : List NodeRank → List NodeRank
unfolding insert
sort_down [] = []
sort_down (n ∷ ns) = insert n (sort_down ns)

at_most_total : (a b : ℤ) → at_most a b ≡ false → at_most b a ≡ true
unfolding at_most
at_most_total (pos a) (pos b) h = ground arith
at_most_total (pos a) (negsuc b) h = refl
at_most_total (negsuc a) (pos b) h = absurd (cc)
at_most_total (negsuc a) (negsuc b) h = ground arith

at_most_trans : (a b c : ℤ) → at_most a b ≡ true → at_most b c ≡ true → at_most a c ≡ true
unfolding at_most
at_most_trans a b c g h = ground arith

at_most_each :
    (m n : NodeRank) (ms : List NodeRank)
    → at_most m.rank n.rank ≡ true
    → All (λ (x : NodeRank). at_most x.rank m.rank ≡ true) ms
    → All (λ (x : NodeRank). at_most x.rank n.rank ≡ true) ms
at_most_each m n [] h a = tt
at_most_each m n (x ∷ ms) h a =
    (at_most_trans x.rank m.rank n.rank a.0 h, at_most_each m n ms h a.1)

insert-perm : (n : NodeRank) (ns : List NodeRank) → Permᴰ (insert n ns) (n ∷ ns)
unfolding insert
insert-perm n [] = Permᴰ.refl (n ∷ [])
insert-perm n (m ∷ ms) = elim (Bool-cases (at_most m.rank n.rank)) [
  | inl here ↦ rw (here, insert) (Permᴰ.refl (n ∷ m ∷ ms))
  | inr later ↦
      rw (later, insert) (Permᴰ.trans (Permᴰ.cons refl (insert-perm n ms)) (Permᴰ.swap refl refl))
]

insert-IsDescending :
    (n : NodeRank) (ns : List NodeRank) → IsDescending ns → IsDescending (insert n ns)
unfolding insert
insert-IsDescending n [] d = (tt, tt)
insert-IsDescending n (m ∷ ms) d = elim (Bool-cases (at_most m.rank n.rank)) [
  | inl here ↦ rw (here, insert) ((here, at_most_each m n ms here d.0), d)
  | inr later ↦
      rw (later, insert)
        (
          All-perm _ (Permᴰ.symm (insert-perm n ms)) (at_most_total m.rank n.rank later, d.0),
          insert-IsDescending n ms d.1,
        )
]

sort_down-perm : (ns : List NodeRank) → Permᴰ (sort_down ns) ns
unfolding sort_down
sort_down-perm [] = Permᴰ.nil
sort_down-perm (n ∷ ns) =
    Permᴰ.trans (insert-perm n (sort_down ns)) (Permᴰ.cons refl (sort_down-perm ns))

sort_down-IsDescending : (ns : List NodeRank) → IsDescending (sort_down ns)
unfolding sort_down
sort_down-IsDescending [] = tt
sort_down-IsDescending (n ∷ ns) = insert-IsDescending n (sort_down ns) (sort_down-IsDescending ns)

pub sort_down-Sorts : Sorts sort_down
sort_down-Sorts = record { rearranged = sort_down-perm; descending = sort_down-IsDescending }
