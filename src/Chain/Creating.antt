-- ===== src/Chain/Creating.antt =====
-- The call that creates an auction (internal/blockchain/evm/calldata.go).
use unbelievable_fish.Prelude.{
  ◌≡◌, ap, ◌∙◌, [], ◌∷◌, some, ok, All, check_passed, ◌||◌, check, ◌then_also◌,
}
use unbelievable_fish.Prelude.Int.{ℤ, pos, ◌<ℤ◌, pos_part, leb_ℤ, ltb_ℤ}
use unbelievable_fish.Prelude.Int64.{IsInt64}
use unbelievable_fish.Chain.Reading.{as_bytes32_word-IsWord}
use unbelievable_fish.Chain.Hex.{Bytes}
use unbelievable_fish.Chain.Word.{
  IsWord, number_of, uint256_word, as_bytes32_word, uint256_word-IsWord,
}
use unbelievable_fish.Chain.Calldata.{
  word_of, is_not_positive, negative_nonce, min_bid_step_not_positive, invalid_times,
  method_selector, build_create_auction, create_auction_signature,
}
use unbelievable_fish.Chain.Abi.{read_call}
use unbelievable_fish.Chain.Calls.{
  IsDigest, word_stands, positive, positive_up, one_check, times_good, passed, held, and_then_ok,
  hash_ok, text_of, selector_reads,
}

module _ (keccak : Bytes → Bytes) (digest : IsDigest keccak) where
  -- A call that creates an auction, where it is built, is read back: the selector of the function,
  -- the hash of the auction, then the step, the two times and the nonce as the numbers that the words
  -- stand for; the step and the times are positive, and the start comes before the end.
  pub create_auction_reads :
      (auction : Bytes) (step starts ends nonce : ℤ) (text : Bytes)
      → IsInt64 step
      → IsInt64 starts
      → IsInt64 ends
      → IsInt64 nonce
      → build_create_auction keccak auction step starts ends nonce ≡ ok text
      → (a : Bytes) × (w : Bytes) × (t : Bytes) × (u : Bytes) × (n : Bytes) × (as_bytes32_word
            auction
          ≡ ok a)
        × (pos (number_of w) ≡ step)
        × (pos (number_of t) ≡ starts)
        × (pos (number_of u) ≡ ends)
        × (pos (number_of n) ≡ nonce)
        × (pos 0 <ℤ step)
        × (pos 0 <ℤ starts)
        × (starts <ℤ ends)
        × (read_call text
            ≡ some (method_selector keccak create_auction_signature, a ∷ w ∷ t ∷ u ∷ n ∷ []))
  unfolding build_create_auction
  create_auction_reads auction step starts ends nonce text fw ft fu fn h =
      let bad_times = is_not_positive starts || is_not_positive ends || leb_ℤ ends starts in
      let checks =
        check (is_not_positive step) min_bid_step_not_positive
        then_also check bad_times invalid_times
        then_also check (ltb_ℤ nonce (pos 0)) negative_nonce in
      let (c1, cn) = check_passed _ (ltb_ℤ nonce (pos 0)) _ (held checks _ text h) in
      let (c2, ct) = check_passed _ bad_times _ c1 in
      let cw = one_check (is_not_positive step) min_bid_step_not_positive c2 in
      let (a, ra, h1) =
        and_then_ok (word_of (as_bytes32_word auction)) _ text (passed checks _ text h) in
      let ea = hash_ok (as_bytes32_word auction) a ra in
      let (up, order, st, en) = times_good starts ends ct in
      let w = uint256_word (pos_part step) in
      let t = uint256_word (pos_part starts) in
      let u = uint256_word (pos_part ends) in
      let n = uint256_word (pos_part nonce) in
      let words : All IsWord (a ∷ w ∷ t ∷ u ∷ n ∷ []) = (
        as_bytes32_word-IsWord auction a ea,
        (
          uint256_word-IsWord (pos_part step),
          (
            uint256_word-IsWord (pos_part starts),
            (uint256_word-IsWord (pos_part ends), (uint256_word-IsWord (pos_part nonce), tt)),
          ),
        ),
      ) in
      (
        a,
        w,
        t,
        u,
        n,
        ea,
        word_stands step fw (positive_up step cw),
        word_stands starts ft st,
        word_stands ends fu en,
        word_stands nonce fn cn,
        positive step cw,
        up,
        order,
        ap read_call (text_of _ text h1)
            ∙ selector_reads keccak digest create_auction_signature (a ∷ w ∷ t ∷ u ∷ n ∷ []) words,
      )
