-- ===== src/Prelude/Text.antt =====
-- `str::trim` and the decimal form of a `u64`, on texts as lists of bytes.
use Prim.Native.Nat.{ℕ, zero, suc, ◌+◌, ◌/◌, ◌%◌}
use mathlib.Core.Bool.{Bool, ◌&&◌, ◌||◌}
use mathlib.Core.List.{[], ◌∷◌, ◌++◌, reverse}
use ce_pubsub.Prelude.Tests.{leb, ltb, ◌==◌, if◌then◌else◌}
use ce_pubsub.Prelude.Lists.{length, drop}
use ce_pubsub.Prelude.Order.{Text}

-- The characters of the Unicode property White_Space, by the bytes of their UTF-8 form.
unfoldable pub white_1 : ℕ → Bool
white_1 a = leb 9 a && leb a 13 || a == 32

unfoldable pub white_2 : ℕ → ℕ → Bool
white_2 a b = a == 0xc2 && (b == 0x85 || b == 0xa0)

unfoldable pub white_3 : ℕ → ℕ → ℕ → Bool
white_3 a b c =
    a == 0xe1 && b == 0x9a && c == 0x80
    || a == 0xe2 && b == 0x80 && (leb 0x80 c && leb c 0x8a || c == 0xa8 || c == 0xa9 || c == 0xaf)
    || a == 0xe2 && b == 0x81 && c == 0x9f
    || a == 0xe3 && b == 0x80 && c == 0x80

-- How many bytes of white space a text begins with: those of one character, or none.
unfoldable pub white_front : Text → ℕ
unfolding white_1 white_2 white_3
white_front [] = 0
white_front (a ∷ []) = if white_1 a then 1 else 0
white_front (a ∷ b ∷ []) = if white_1 a then 1 else if white_2 a b then 2 else 0
white_front (a ∷ b ∷ c ∷ s) =
    if white_1 a then 1 else if white_2 a b then 2 else if white_3 a b c then 3 else 0

-- The same for the end of a text, whose bytes are given in reverse.
unfoldable pub white_back : Text → ℕ
unfolding white_1 white_2 white_3
white_back [] = 0
white_back (a ∷ []) = if white_1 a then 1 else 0
white_back (b ∷ a ∷ []) = if white_1 b then 1 else if white_2 a b then 2 else 0
white_back (c ∷ b ∷ a ∷ s) =
    if white_1 c then 1 else if white_2 b c then 2 else if white_3 a b c then 3 else 0

unfoldable pub strip : (Text → ℕ) → ℕ → Text → Text
strip white zero s = s
strip white (suc fuel) s = elim (white s) [ zero ↦ s | suc n ↦ strip white fuel (drop (suc n) s) ]

-- A text of `n` bytes begins with `n` characters of white space at most.
unfoldable pub trim : Text → Text
unfolding white_front white_back strip
trim s =
    let front = strip white_front (length s) s in
    reverse (strip white_back (length front) (reverse front))

unfoldable pub digits : ℕ → ℕ → Text
digits zero n = []
digits (suc fuel) n =
    let rest = digits fuel (n / 10) in
    if ltb n 10 then (b'0' + n) ∷ [] else rest ++ (b'0' + n % 10) ∷ []

-- Twenty digits hold every `u64`.
unfoldable pub decimal : ℕ → Text
unfolding digits
decimal n = digits 20 n
