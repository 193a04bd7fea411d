-- ===== src/Trading/Sort.antt =====
-- A sort of bids for closing that meets the interface of `sort.Slice` in auction.go: insertion, which
-- is what Go's sort runs on up to twelve elements.
use unbelievable_fish.Prelude.{
  ◌≡◌, refl, inl, inr, true, false, List, [], ◌∷◌, Permᴰ, All, AllPairs, All-perm, perm_refl,
  perm_symm, Bool-cases, arith, if◌then◌else◌,
}
use unbelievable_fish.Trading.Types.{Bid}
use unbelievable_fish.Trading.Winner.{ranks_before, RankingSort}

unfoldable pub insert_ranked : Bid → List Bid → List Bid
insert_ranked b [] = b ∷ []
insert_ranked b (x ∷ bids) = if ranks_before x b then x ∷ insert_ranked b bids else b ∷ x ∷ bids

unfoldable pub insertion_sort : List Bid → List Bid
unfolding insert_ranked
insertion_sort [] = []
insertion_sort (b ∷ bids) = insert_ranked b (insertion_sort bids)

insert_ranked-perm : (b : Bid) (bids : List Bid) → Permᴰ (insert_ranked b bids) (b ∷ bids)
unfolding insert_ranked
insert_ranked-perm b [] = Permᴰ.cons refl Permᴰ.nil
insert_ranked-perm b (x ∷ bids) = elim (Bool-cases (ranks_before x b)) [
  | inl k ↦ rw k (Permᴰ.trans (Permᴰ.cons refl (insert_ranked-perm b bids)) (Permᴰ.swap refl refl))
  | inr k ↦ rw k (perm_refl (b ∷ x ∷ bids))
]

pub insertion_sort-perm : (bids : List Bid) → Permᴰ (insertion_sort bids) bids
unfolding insertion_sort
insertion_sort-perm [] = Permᴰ.nil
insertion_sort-perm (b ∷ bids) =
    Permᴰ.trans (insert_ranked-perm b (insertion_sort bids))
      (Permᴰ.cons refl (insertion_sort-perm bids))

not-before_chain :
    (x y z : Bid) → ranks_before y x ≡ false → ranks_before z y ≡ false → ranks_before z x ≡ false
unfolding ranks_before
not-before_chain x y z h k = ground arith

before_asym : (x y : Bid) → ranks_before x y ≡ true → ranks_before y x ≡ false
unfolding ranks_before
before_asym x y h = ground arith

All-chain :
    (b x : Bid) (bids : List Bid)
    → ranks_before x b ≡ false
    → All (λ y. ranks_before y x ≡ false) bids
    → All (λ y. ranks_before y b ≡ false) bids
All-chain b x [] h k = tt
All-chain b x (y ∷ bids) h k = (not-before_chain b x y h k.0, All-chain b x bids h k.1)

-- No bid of the list ranks before an earlier one.
abbrev pub IsRanked : List Bid → Type 0
IsRanked bids = AllPairs (λ a b. ranks_before b a ≡ false) bids

insert_ranked-IsRanked :
    (b : Bid) (bids : List Bid) → IsRanked bids → IsRanked (insert_ranked b bids)
unfolding insert_ranked
insert_ranked-IsRanked b [] h = (tt, tt)
insert_ranked-IsRanked b (x ∷ bids) h = elim (Bool-cases (ranks_before x b)) [
  | inl k ↦ rw k (
    All-perm (λ y. ranks_before y x ≡ false) (perm_symm (insert_ranked-perm b bids))
        (before_asym x b k, h.0),
    insert_ranked-IsRanked b bids h.1,
  )
  | inr k ↦ rw k ((k, All-chain b x bids k h.0), h)
]

pub insertion_sort-IsRanked : (bids : List Bid) → IsRanked (insertion_sort bids)
unfolding insertion_sort
insertion_sort-IsRanked [] = tt
insertion_sort-IsRanked (b ∷ bids) =
    insert_ranked-IsRanked b (insertion_sort bids) (insertion_sort-IsRanked bids)

abbrev pub by_insertion : RankingSort
by_insertion = record {
  sort = insertion_sort;
  sort-perm = insertion_sort-perm;
  sort-ranked = insertion_sort-IsRanked;
}
