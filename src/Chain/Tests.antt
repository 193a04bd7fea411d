-- ===== src/Chain/Tests.antt =====
-- The theorems on the calls of the contract (internal/blockchain/evm) at concrete arguments.
use unbelievable_fish.Prelude.{ℕ, ◌≡◌, refl, [], ◌∷◌, ◌++◌, some, ok, All, All-append, arith}
use unbelievable_fish.Prelude.Int.{pos, ◌<ℤ◌}
use unbelievable_fish.Chain.Hex.{Bytes, encode, IsByte}
use unbelievable_fish.Chain.Word.{
  IsWord, number_of, uint256_word, as_bytes32_word, as_bytes32_word-encode,
}
use unbelievable_fish.Chain.Calldata.{
  build_anchor_bid, build_create_auction, call_text, method_selector, create_auction_signature,
  anchor_bid_signature,
}
use unbelievable_fish.Chain.Abi.{read_call}
use unbelievable_fish.Chain.Calls.{IsDigest, anchor_bid_built, create_auction_built}
use unbelievable_fish.Chain.Anchoring.{anchor_bid_reads}
use unbelievable_fish.Chain.Creating.{create_auction_reads}

-- 32 bytes of one value.
abbrev eight : ℕ → Bytes
eight b = b ∷ b ∷ b ∷ b ∷ b ∷ b ∷ b ∷ b ∷ []

abbrev filled : ℕ → Bytes
filled b = eight b ++ eight b ++ eight b ++ eight b

filled-IsWord : (b : ℕ) → IsByte b → IsWord (filled b)
filled-IsWord b h =
    let half = All-append IsByte (eight b) (eight b) (eight_small b h) (eight_small b h) in
    let most = All-append IsByte (eight b ++ eight b) (eight b) half (eight_small b h) in
    (All-append IsByte (eight b ++ eight b ++ eight b) (eight b) most (eight_small b h), refl)
  where
    eight_small : (b : ℕ) → IsByte b → All IsByte (eight b)
    eight_small b h = (h, (h, (h, (h, (h, (h, (h, (h, tt))))))))

abbrev constant_digest : Bytes → Bytes
constant_digest m = filled 171

constant_digest-IsDigest : IsDigest constant_digest
constant_digest-IsDigest m = filled-IsWord 171 (omega arith)

-- The text of a hash, with its prefix.
abbrev sample_hash : Bytes
sample_hash = 48 ∷ 120 ∷ encode (filled 18)

sample_read :
    (as_bytes32_word (48 ∷ 120 ∷ encode (filled 18)) ≡ ok (filled 18))
    × (as_bytes32_word (encode (filled 18)) ≡ ok (filled 18))
sample_read = as_bytes32_word-encode (filled 18) (filled-IsWord 18 (omega arith))

abbrev anchor_text : Bytes
anchor_text =
    call_text (method_selector constant_digest anchor_bid_signature)
      (filled 18 ∷ filled 18 ∷ uint256_word 7 ∷ uint256_word 100 ∷ [])

anchor_built :
    build_anchor_bid constant_digest sample_hash sample_hash (pos 7) (pos 100) ≡ ok anchor_text
anchor_built =
    let read = sample_read.0 in
    anchor_bid_built constant_digest sample_hash sample_hash (filled 18) (filled 18) (pos 7)
      (pos 100) read read refl refl

anchor_bid_reads_example :
    (a : Bytes) × (b : Bytes) × (n : Bytes) × (p : Bytes) × (as_bytes32_word sample_hash ≡ ok a)
    × (as_bytes32_word sample_hash ≡ ok b)
    × (pos (number_of n) ≡ pos 7)
    × (pos (number_of p) ≡ pos 100)
    × (read_call anchor_text
        ≡ some (method_selector constant_digest anchor_bid_signature, a ∷ b ∷ n ∷ p ∷ []))
anchor_bid_reads_example =
    anchor_bid_reads constant_digest constant_digest-IsDigest sample_hash sample_hash (pos 7)
      (pos 100) anchor_text (omega arith, omega arith) (omega arith, omega arith) anchor_built

abbrev create_text : Bytes
create_text =
    call_text (method_selector constant_digest create_auction_signature)
      (filled 18 ∷ uint256_word 5 ∷ uint256_word 100 ∷ uint256_word 200 ∷ uint256_word 1 ∷ [])

create_built :
    build_create_auction constant_digest sample_hash (pos 5) (pos 100) (pos 200) (pos 1)
    ≡ ok create_text
create_built =
    create_auction_built constant_digest sample_hash (filled 18) (pos 5) (pos 100) (pos 200) (pos 1)
      sample_read.0 refl refl refl

create_auction_reads_example :
    (a : Bytes) × (w : Bytes) × (t : Bytes) × (u : Bytes) × (n : Bytes) × (as_bytes32_word
        sample_hash
      ≡ ok a)
    × (pos (number_of w) ≡ pos 5)
    × (pos (number_of t) ≡ pos 100)
    × (pos (number_of u) ≡ pos 200)
    × (pos (number_of n) ≡ pos 1)
    × (pos 0 <ℤ pos 5)
    × (pos 0 <ℤ pos 100)
    × (pos 100 <ℤ pos 200)
    × (read_call create_text
        ≡ some (method_selector constant_digest create_auction_signature, a ∷ w ∷ t ∷ u ∷ n ∷ []))
create_auction_reads_example =
    create_auction_reads constant_digest constant_digest-IsDigest sample_hash (pos 5) (pos 100)
      (pos 200) (pos 1) create_text (omega arith, omega arith) (omega arith, omega arith)
      (omega arith, omega arith) (omega arith, omega arith) create_built
