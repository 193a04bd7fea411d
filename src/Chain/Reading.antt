-- ===== src/Chain/Reading.antt =====
-- What is read back from the calls that internal/blockchain/evm/calldata.go writes.
use unbelievable_fish.Prelude.{
  ℕ, ◌+◌, ◌*◌, ◌<◌, ◌≡◌, refl, sym, ap, ◌∙◌, subst, [], ◌∷◌, Option, none, some, ok, All, length,
  arith,
}
use unbelievable_fish.Chain.Hex.{Bytes, IsByte, hex_value, decode, join}
use unbelievable_fish.Chain.Word.{IsWord, as_bytes32_word, as_bytes32_word_ok}

hex_value-small : (c x : ℕ) → hex_value c ≡ some x → x < 16
unfolding hex_value
hex_value-small c x h = ground arith

join-IsByte :
    (a b : Option ℕ) (rest : Option Bytes) (bs : Bytes)
    → ((x : ℕ) → a ≡ some x → x < 16)
    → ((x : ℕ) → b ≡ some x → x < 16)
    → ((cs : Bytes) → rest ≡ some cs → All IsByte cs)
    → join a b rest ≡ some bs
    → All IsByte bs
join-IsByte (some x) (some y) (some cs) bs h k r e =
    let small = h x refl in
    let small' = k y refl in
    let same : (x * 16 + y) ∷ cs ≡ bs = cc in subst (All IsByte) same (omega arith, r cs refl)
join-IsByte (some x) (some y) none bs h k r e = cc
join-IsByte (some x) none rest bs h k r e = cc
join-IsByte none b rest bs h k r e = cc

join-length :
    (a b : Option ℕ) (rest : Option Bytes) (bs : Bytes) (n : ℕ)
    → ((cs : Bytes) → rest ≡ some cs → 2 * length cs ≡ n)
    → join a b rest ≡ some bs
    → 2 * length bs ≡ n + 2
join-length (some x) (some y) (some cs) bs n r e =
    let len = r cs refl in
    let same : (x * 16 + y) ∷ cs ≡ bs = cc in ap (λ l. 2 * length l) (sym same) ∙ omega (arith, len)
join-length (some x) (some y) none bs n r e = cc
join-length (some x) none rest bs n r e = cc
join-length none b rest bs n r e = cc

decode-IsByte : (s bs : Bytes) → decode s ≡ some bs → All IsByte bs
unfolding decode
decode-IsByte [] bs e = let same : [] ≡ bs = cc in subst (All IsByte) same tt
decode-IsByte (c ∷ []) bs e = cc
decode-IsByte (c ∷ d ∷ s) bs e =
    join-IsByte (hex_value c) (hex_value d) (decode s) bs (hex_value-small c) (hex_value-small d)
      (decode-IsByte s) e

length-decode : (s bs : Bytes) → decode s ≡ some bs → 2 * length bs ≡ length s
unfolding decode
length-decode [] bs e = let same : [] ≡ bs = cc in ap (λ l. 2 * length l) (sym same) ∙ omega arith
length-decode (c ∷ []) bs e = cc
length-decode (c ∷ d ∷ s) bs e =
    join-length (hex_value c) (hex_value d) (decode s) bs (length s) (length-decode s) e
    ∙ omega arith

-- What is read as a word is one.
pub as_bytes32_word-IsWord : (value w : Bytes) → as_bytes32_word value ≡ ok w → IsWord w
as_bytes32_word-IsWord value w e =
    let (s, long, back) = as_bytes32_word_ok value w e in
    (decode-IsByte s w back, omega (arith, length-decode s w back, long))
