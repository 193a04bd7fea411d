-- ===== src/Chain/Calldata.antt =====
-- The call data of the three contract functions: internal/blockchain/evm/calldata.go.
use Prim.Native.Char.{code}
use unbelievable_fish.Prelude.{
  Bool, ◌||◌, List, [], ◌∷◌, ◌++◌, String, Result, ok, err, check, ◌then_also◌, take,
}
use unbelievable_fish.Prelude.Int.{ℤ, pos, pos_part, leb_ℤ, ltb_ℤ}
use unbelievable_fish.Chain.Hex.{Bytes, encode}
use unbelievable_fish.Chain.Word.{HashError, uint256_word, as_bytes32_word}

-- The bytes of an ASCII text.
unfoldable pub ascii : String → Bytes
ascii String.[] = []
ascii (String.◌∷◌ c s) = code c ∷ ascii s

abbrev pub create_auction_signature : String
create_auction_signature = "createAuction(bytes32,uint256,uint64,uint64,uint64)"

abbrev pub anchor_bid_signature : String
anchor_bid_signature = "anchorBid(bytes32,bytes32,uint64,uint64)"

abbrev pub finalize_signature : String
finalize_signature = "finalizeAuction(bytes32,bytes32,bytes32,uint256,uint64)"

pub data Error : Type 0 where
  min_bid_step_not_positive invalid_times negative_nonce : Error
  placed_at_not_positive final_price_not_positive : Error
  of_hash : HashError → Error

abbrev pub is_not_positive : ℤ → Bool
is_not_positive z = leb_ℤ z (pos 0)

abbrev pub word_of : Result HashError Bytes → Result Error Bytes
word_of (ok w) = ok w
word_of (err e) = err (of_hash e)

abbrev pub and_then : {A B : Type 0} → Result Error A → (A → Result Error B) → Result Error B
and_then (ok a) f = f a
and_then (err e) f = err e

abbrev pub joined : List Bytes → Bytes
joined [] = []
joined (w ∷ ws) = w ++ joined ws

-- `"0x" + hex.EncodeToString(payload)` of a selector and the words after it.
unfoldable pub call_text : Bytes → List Bytes → Bytes
unfolding encode
call_text selector words = 48 ∷ 120 ∷ encode (selector ++ joined words)

-- The hash function of the library, on bytes.
module _ (keccak : Bytes → Bytes) where
  unfoldable pub method_selector : String → Bytes
  unfolding ascii
  method_selector signature = take 4 (keccak (ascii signature))

  -- `keccakWord` of "company|" and a company id.
  unfoldable pub company_word : Bytes → Bytes
  unfolding ascii
  company_word company = take 32 (keccak (ascii "company|" ++ company))

  unfoldable pub build_create_auction : Bytes → ℤ → ℤ → ℤ → ℤ → Result Error Bytes
  unfolding method_selector as_bytes32_word uint256_word call_text
  build_create_auction auction step starts ends nonce =
      check (is_not_positive step) min_bid_step_not_positive
      then_also check (is_not_positive starts || is_not_positive ends || leb_ℤ ends starts)
          invalid_times
      then_also check (ltb_ℤ nonce (pos 0)) negative_nonce
      then_also and_then (word_of (as_bytes32_word auction)) λ a. ok (
          call_text (method_selector create_auction_signature) (
            a
            ∷ uint256_word (pos_part step)
            ∷ uint256_word (pos_part starts)
            ∷ uint256_word (pos_part ends)
            ∷ uint256_word (pos_part nonce)
            ∷ []))

  unfoldable pub build_anchor_bid : Bytes → Bytes → ℤ → ℤ → Result Error Bytes
  unfolding method_selector as_bytes32_word uint256_word call_text
  build_anchor_bid auction bid nonce placed =
      check (ltb_ℤ nonce (pos 0)) negative_nonce
      then_also check (is_not_positive placed) placed_at_not_positive
      then_also and_then (word_of (as_bytes32_word auction)) λ a.
        and_then (word_of (as_bytes32_word bid)) λ b. ok (
          call_text (method_selector anchor_bid_signature)
            (a ∷ b ∷ uint256_word (pos_part nonce) ∷ uint256_word (pos_part placed) ∷ []))

  unfoldable pub build_finalize_auction : Bytes → Bytes → Bytes → ℤ → ℤ → Result Error Bytes
  unfolding method_selector company_word as_bytes32_word uint256_word call_text
  build_finalize_auction auction result winner price nonce =
      check (is_not_positive price) final_price_not_positive
      then_also check (ltb_ℤ nonce (pos 0)) negative_nonce
      then_also and_then (word_of (as_bytes32_word auction)) λ a.
        and_then (word_of (as_bytes32_word result)) λ r. ok (
          call_text (method_selector finalize_signature) (
            a
            ∷ r
            ∷ company_word winner
            ∷ uint256_word (pos_part price)
            ∷ uint256_word (pos_part nonce)
            ∷ []))
