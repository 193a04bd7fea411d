-- ===== src/Chain/Calls.antt =====
-- Lemmas on the calls of the auction contract, as they are written and read back (internal/blockchain/evm/calldata.go).
use unbelievable_fish.Prelude.{
  Succeeds, ℕ, zero, suc, ◌≤◌, ◌≡◌, refl, ap, Bool, true, false, List, [], ◌∷◌, ◌++◌, some, String,
  Result, ok, err, All, length, take, arith, ◌||◌, check, ◌then_also◌,
}
use unbelievable_fish.Prelude.Int.{ℤ, pos, negsuc, ◌<ℤ◌, pos_part, leb_ℤ, ltb_ℤ}
use unbelievable_fish.Prelude.Int64.{IsInt64}
use unbelievable_fish.Chain.Hex.{Bytes, IsByte}
use unbelievable_fish.Chain.Word.{
  HashError, IsWord, number_of, uint256_word, as_bytes32_word, number_of-uint256_word,
}
use unbelievable_fish.Chain.Calldata.{
  Error, word_of, and_then, is_not_positive, call_text, method_selector, company_word,
  build_create_auction, build_anchor_bid, create_auction_signature, anchor_bid_signature, ascii,
}
use unbelievable_fish.Chain.Abi.{read_call, read_call-call_text}

abbrev pub IsDigest : (Bytes → Bytes) → Type 0
IsDigest keccak = (m : Bytes) → IsWord (keccak m)

take_small : (n : ℕ) (bs : Bytes) → All IsByte bs → All IsByte (take n bs)
take_small zero bs h = tt
take_small (suc n) [] h = tt
take_small (suc n) (b ∷ bs) h = (h.0, take_small n bs h.1)

length-take : (n : ℕ) (bs : Bytes) → n ≤ length bs → length (take n bs) ≡ n
length-take zero bs h = refl
length-take (suc n) [] h = omega (arith, h)
length-take (suc n) (b ∷ bs) h = ap suc (length-take n bs (omega (arith, h)))

-- The word of a number that is not negative stands for it.
pub word_stands :
    (z : ℤ) → IsInt64 z → ltb_ℤ z (pos 0) ≡ false → pos (number_of (uint256_word (pos_part z))) ≡ z
word_stands (pos n) f h = ap pos (number_of-uint256_word n (omega (arith, f.0)))
word_stands (negsuc n) f h = ground arith

pub positive : (z : ℤ) → is_not_positive z ≡ false → pos 0 <ℤ z
positive z h = ground arith

pub positive_up : (z : ℤ) → is_not_positive z ≡ false → ltb_ℤ z (pos 0) ≡ false
positive_up z h = ground arith

pub one_check : (c : Bool) (e : Error) → Succeeds (check c e) → c ≡ false
one_check true e h = cc
one_check false e h = refl

pub times_good :
    (starts ends : ℤ)
    → (is_not_positive starts || is_not_positive ends || leb_ℤ ends starts) ≡ false
    → (pos 0 <ℤ starts)
      × (starts <ℤ ends)
      × (ltb_ℤ starts (pos 0) ≡ false)
      × (ltb_ℤ ends (pos 0) ≡ false)
times_good starts ends h = ground arith

-- A result that is reached.
module _ {E A B : Type 0} where
  pub passed : (r : Result E A) (k : Result E B) (x : B) → (r then_also k) ≡ ok x → k ≡ ok x
  passed (ok _) k x h = h
  passed (err e) k x h = cc

  pub held : (r : Result E A) (k : Result E B) (x : B) → (r then_also k) ≡ ok x → Succeeds r
  held (ok _) k x h = refl
  held (err e) k x h = cc

module _ {A B : Type 0} where
  pub and_then_ok :
      (r : Result Error A) (f : A → Result Error B) (x : B)
      → and_then r f ≡ ok x
      → (a : A) × (r ≡ ok a) × (f a ≡ ok x)
  and_then_ok (ok a) f x h = (a, refl, h)
  and_then_ok (err e) f x h = cc

pub hash_ok : (r : Result HashError Bytes) (w : Bytes) → word_of r ≡ ok w → r ≡ ok w
hash_ok (ok v) w h = cc
hash_ok (err e) w h = cc

pub text_of : (a b : Bytes) → ◌≡◌ {A = Result Error Bytes} (ok a) (ok b) → b ≡ a
text_of a b h = cc

-- Where the arguments pass the checks and the hashes are read, the calls are built.
module _ (keccak : Bytes → Bytes) where
  pub anchor_bid_built :
      (auction bid a b : Bytes) (nonce placed : ℤ)
      → as_bytes32_word auction ≡ ok a
      → as_bytes32_word bid ≡ ok b
      → ltb_ℤ nonce (pos 0) ≡ false
      → is_not_positive placed ≡ false
      → build_anchor_bid keccak auction bid nonce placed
        ≡ ok (
            call_text
              (method_selector keccak anchor_bid_signature)
              (a ∷ b ∷ uint256_word (pos_part nonce) ∷ uint256_word (pos_part placed) ∷ []))
  unfolding build_anchor_bid
  anchor_bid_built auction bid a b nonce placed ea eb en ep = rw (ea, eb, en, ep) refl

  pub create_auction_built :
      (auction a : Bytes) (step starts ends nonce : ℤ)
      → as_bytes32_word auction ≡ ok a
      → is_not_positive step ≡ false
      → (is_not_positive starts || is_not_positive ends || leb_ℤ ends starts) ≡ false
      → ltb_ℤ nonce (pos 0) ≡ false
      → build_create_auction keccak auction step starts ends nonce
        ≡ ok (
            call_text (method_selector keccak create_auction_signature) (
              a
              ∷ uint256_word (pos_part step)
              ∷ uint256_word (pos_part starts)
              ∷ uint256_word (pos_part ends)
              ∷ uint256_word (pos_part nonce)
              ∷ []))
  unfolding build_create_auction
  create_auction_built auction a step starts ends nonce ea es et en = rw (ea, es, et, en) refl

module _ (keccak : Bytes → Bytes) (digest : IsDigest keccak) where
  pub selector_reads :
      (signature : String) (ws : List Bytes)
      → All IsWord ws
      → read_call (call_text (method_selector keccak signature) ws)
        ≡ some (method_selector keccak signature, ws)
  unfolding method_selector
  selector_reads signature ws h =
      let (small, long) = digest (ascii signature) in
      read_call-call_text (take 4 (keccak (ascii signature))) ws
        (take_small 4 (keccak (ascii signature)) small)
        (length-take 4 (keccak (ascii signature)) (omega (arith, long))) h

  pub company_word-IsWord : (company : Bytes) → IsWord (company_word keccak company)
  unfolding company_word
  company_word-IsWord company =
      let (small, long) = digest (ascii "company|" ++ company) in
      (
        take_small 32 (keccak (ascii "company|" ++ company)) small,
        length-take 32 (keccak (ascii "company|" ++ company)) (omega (arith, long)),
      )
