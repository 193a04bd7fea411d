-- ===== src/Chain/Abi.antt =====
-- A reader of call data, against which the writer of internal/blockchain/evm/calldata.go is proved.
use unbelievable_fish.Prelude.{
  ℕ, zero, suc, ◌-◌, ◌*◌, ◌/◌, ◌≡◌, refl, ap, ◌&&◌, List, [], ◌∷◌, ◌++◌, Option, none, some, All,
  All-append, length, length-append, take, arith, ◌==◌, if◌then◌else◌,
}
use unbelievable_fish.Chain.Hex.{Bytes, IsByte, decode, decode-encode}
use unbelievable_fish.Chain.Word.{IsWord}
use unbelievable_fish.Chain.Calldata.{joined, call_text}

abbrev drop : ℕ → Bytes → Bytes
drop zero bs = bs
drop (suc n) [] = []
drop (suc n) (b ∷ bs) = drop n bs

-- The first words of some bytes, so many.
abbrev pub words : ℕ → Bytes → List Bytes
words zero bs = []
words (suc n) bs = take 32 bs ∷ words n (drop 32 bs)

abbrev split : Option Bytes → Option (Bytes × List Bytes)
split none = none
split (some bs) = some (take 4 bs, words ((length bs - 4) / 32) (drop 4 bs))

-- The selector and the words of a call.
pub read_call : Bytes → Option (Bytes × List Bytes)
read_call [] = none
read_call (c ∷ []) = none
read_call (c ∷ d ∷ s) = if c == 48 && d == 120 then split (decode s) else none

take-append : (xs ys : Bytes) (n : ℕ) → length xs ≡ n → take n (xs ++ ys) ≡ xs
take-append [] ys zero h = refl
take-append [] ys (suc n) h = ground arith
take-append (x ∷ xs) ys zero h = ground arith
take-append (x ∷ xs) ys (suc n) h = ap (λ zs. x ∷ zs) (take-append xs ys n (omega (arith, h)))

drop-append : (xs ys : Bytes) (n : ℕ) → length xs ≡ n → drop n (xs ++ ys) ≡ ys
drop-append [] ys zero h = refl
drop-append [] ys (suc n) h = ground arith
drop-append (x ∷ xs) ys zero h = ground arith
drop-append (x ∷ xs) ys (suc n) h = drop-append xs ys n (omega (arith, h))

words-joined : (ws : List Bytes) → All IsWord ws → words (length ws) (joined ws) ≡ ws
words-joined [] h = refl
words-joined (w ∷ ws) h =
    let first = take-append w (joined ws) 32 h.0.1 in
    let rest = drop-append w (joined ws) 32 h.0.1 in rw (first, rest, words-joined ws h.1) refl

length-joined : (ws : List Bytes) → All IsWord ws → length (joined ws) ≡ 32 * length ws
length-joined [] h = refl
length-joined (w ∷ ws) h = omega (arith, length-append w (joined ws), length-joined ws h.1, h.0.1)

joined-small : (ws : List Bytes) → All IsWord ws → All IsByte (joined ws)
joined-small [] h = tt
joined-small (w ∷ ws) h = All-append IsByte w (joined ws) h.0.0 (joined-small ws h.1)

pub read_call-call_text :
    (selector : Bytes) (ws : List Bytes)
    → All IsByte selector
    → length selector ≡ 4
    → All IsWord ws
    → read_call (call_text selector ws) ≡ some (selector, ws)
unfolding read_call call_text
read_call-call_text selector ws h l k =
    let bs = selector ++ joined ws in
    let back = decode-encode bs (All-append IsByte selector (joined ws) h (joined-small ws k)) in
    let count : (length bs - 4) / 32 ≡ length ws =
      omega (arith, length-append selector (joined ws), length-joined ws k, l) in
    rw
      (
        back,
        count,
        take-append selector (joined ws) 4 l,
        drop-append selector (joined ws) 4 l,
        words-joined ws k,
      )
      refl
