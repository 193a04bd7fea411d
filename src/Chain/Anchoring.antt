-- ===== src/Chain/Anchoring.antt =====
-- The calls that anchor a bid and finalize an auction (internal/blockchain/evm/calldata.go).
use unbelievable_fish.Prelude.{
  ◌≡◌, ap, ◌∙◌, [], ◌∷◌, some, ok, All, check_passed, check, ◌then_also◌,
}
use unbelievable_fish.Prelude.Int.{ℤ, pos, ◌<ℤ◌, pos_part, ltb_ℤ}
use unbelievable_fish.Prelude.Int64.{IsInt64}
use unbelievable_fish.Chain.Reading.{as_bytes32_word-IsWord}
use unbelievable_fish.Chain.Hex.{Bytes}
use unbelievable_fish.Chain.Word.{
  IsWord, number_of, uint256_word, as_bytes32_word, uint256_word-IsWord,
}
use unbelievable_fish.Chain.Calldata.{
  word_of, is_not_positive, negative_nonce, placed_at_not_positive, final_price_not_positive,
  method_selector, company_word, build_anchor_bid, build_finalize_auction, anchor_bid_signature,
  finalize_signature,
}
use unbelievable_fish.Chain.Abi.{read_call}
use unbelievable_fish.Chain.Calls.{
  IsDigest, word_stands, positive, positive_up, one_check, passed, held, and_then_ok, hash_ok,
  text_of, selector_reads, company_word-IsWord,
}

module _ (keccak : Bytes → Bytes) (digest : IsDigest keccak) where
  -- A call that anchors a bid, where it is built, is read back: the selector of the function, then the
  -- two hashes, and the nonce and the time as the numbers that the last two words stand for. The
  -- digests of the hash function are 32 bytes.
  pub anchor_bid_reads :
      (auction bid : Bytes) (nonce placed : ℤ) (text : Bytes)
      → IsInt64 nonce
      → IsInt64 placed
      → build_anchor_bid keccak auction bid nonce placed ≡ ok text
      → (a : Bytes) × (b : Bytes) × (n : Bytes) × (p : Bytes) × (as_bytes32_word auction ≡ ok a)
        × (as_bytes32_word bid ≡ ok b)
        × (pos (number_of n) ≡ nonce)
        × (pos (number_of p) ≡ placed)
        × (read_call text ≡ some (method_selector keccak anchor_bid_signature, a ∷ b ∷ n ∷ p ∷ []))
  unfolding build_anchor_bid
  anchor_bid_reads auction bid nonce placed text fn fp h =
      let checks =
        check (ltb_ℤ nonce (pos 0)) negative_nonce
        then_also check (is_not_positive placed) placed_at_not_positive in
      let (c1, cp) = check_passed _ (is_not_positive placed) _ (held checks _ text h) in
      let n = uint256_word (pos_part nonce) in
      let p = uint256_word (pos_part placed) in
      let (a, ra, h1) =
        and_then_ok (word_of (as_bytes32_word auction)) _ text (passed checks _ text h) in
      let (b, rb, h2) = and_then_ok (word_of (as_bytes32_word bid)) _ text h1 in
      let ea = hash_ok (as_bytes32_word auction) a ra in
      let eb = hash_ok (as_bytes32_word bid) b rb in
      let words : All IsWord (a ∷ b ∷ n ∷ p ∷ []) = (
        as_bytes32_word-IsWord auction a ea,
        (
          as_bytes32_word-IsWord bid b eb,
          (uint256_word-IsWord (pos_part nonce), (uint256_word-IsWord (pos_part placed), tt)),
        ),
      ) in
      (
        a,
        b,
        n,
        p,
        ea,
        eb,
        word_stands nonce fn (one_check (ltb_ℤ nonce (pos 0)) negative_nonce c1),
        word_stands placed fp (positive_up placed cp),
        ap read_call (text_of _ text h2)
            ∙ selector_reads keccak digest anchor_bid_signature (a ∷ b ∷ n ∷ p ∷ []) words,
      )

  -- A call that finalizes an auction, where it is built, is read back: the selector of the function,
  -- the hash of the auction and of the result, the digest of the winner, then the price, which is
  -- positive, and the nonce as the numbers that the words stand for.
  pub finalize_auction_reads :
      (auction result winner : Bytes) (price nonce : ℤ) (text : Bytes)
      → IsInt64 price
      → IsInt64 nonce
      → build_finalize_auction keccak auction result winner price nonce ≡ ok text
      → (a : Bytes) × (r : Bytes) × (p : Bytes) × (n : Bytes) × (as_bytes32_word auction ≡ ok a)
        × (as_bytes32_word result ≡ ok r)
        × (pos (number_of p) ≡ price)
        × (pos (number_of n) ≡ nonce)
        × (pos 0 <ℤ price)
        × (read_call text
            ≡ some (
              method_selector keccak finalize_signature,
              a ∷ r ∷ company_word keccak winner ∷ p ∷ n ∷ [],
            ))
  unfolding build_finalize_auction
  finalize_auction_reads auction result winner price nonce text fp fn h =
      let checks =
        check (is_not_positive price) final_price_not_positive
        then_also check (ltb_ℤ nonce (pos 0)) negative_nonce in
      let (c1, cn) = check_passed _ (ltb_ℤ nonce (pos 0)) _ (held checks _ text h) in
      let cp = one_check (is_not_positive price) final_price_not_positive c1 in
      let (a, ra, h1) =
        and_then_ok (word_of (as_bytes32_word auction)) _ text (passed checks _ text h) in
      let (r, rr, h2) = and_then_ok (word_of (as_bytes32_word result)) _ text h1 in
      let ea = hash_ok (as_bytes32_word auction) a ra in
      let er = hash_ok (as_bytes32_word result) r rr in
      let p = uint256_word (pos_part price) in
      let n = uint256_word (pos_part nonce) in
      let words : All IsWord (a ∷ r ∷ company_word keccak winner ∷ p ∷ n ∷ []) = (
        as_bytes32_word-IsWord auction a ea,
        (
          as_bytes32_word-IsWord result r er,
          (
            company_word-IsWord keccak digest winner,
            (uint256_word-IsWord (pos_part price), (uint256_word-IsWord (pos_part nonce), tt)),
          ),
        ),
      ) in
      (
        a,
        r,
        p,
        n,
        ea,
        er,
        word_stands price fp (positive_up price cp),
        word_stands nonce fn cn,
        positive price cp,
        ap read_call (text_of _ text h2)
            ∙ selector_reads keccak digest finalize_signature
                (a ∷ r ∷ company_word keccak winner ∷ p ∷ n ∷ []) words,
      )
