-- ===== src/Log/Numbering.antt =====
-- Lists of messages whose cursors count up by one.
use ce_pubsub.Prelude.{
  ℕ, zero, suc, ◌+◌, ◌-◌, ◌≤◌, ◌≡◌, refl, sym, ap, subst, none, List, [], ◌∷◌, ◌++◌, arith, dec_lt,
  length, get_elem?, drop, length-drop,
}
use mathlib.Core.Logic.{if_pos, if_neg}
use ce_pubsub.Message.{Message}
use ce_pubsub.Log.{after}

-- The first message stands at cursor `n + 1`, and there are no gaps.
abbrev pub Numbered : ℕ → List Message → Type 0
Numbered n [] = Unit {0}
Numbered n (m ∷ ms) = (m.cursor ≡ suc n) × Numbered (suc n) ms

pub Numbered-snoc :
    (n : ℕ) (ms : List Message) (m : Message)
    → Numbered n ms
    → m.cursor ≡ suc (n + length ms)
    → Numbered n (ms ++ m ∷ [])
Numbered-snoc n [] m h e = (omega arith, tt)
Numbered-snoc n (x ∷ ms) m h e = (h.0, Numbered-snoc (suc n) ms m h.1 (omega arith))

pub drop-nil {ℓ} : {A : Type ℓ} (k : ℕ) → drop {A = A} k [] ≡ []
drop-nil zero = refl
drop-nil (suc k) = refl

-- Cutting off a front moves the number of the first message by what was cut off.
pub Numbered-drop :
    (n k : ℕ) (ms : List Message)
    → Numbered n ms
    → Numbered (n + (length ms - length (drop k ms))) (drop k ms)
Numbered-drop n zero ms h = subst (λ i. Numbered i ms) (omega arith) h
Numbered-drop n (suc k) [] h = tt
Numbered-drop n (suc k) (m ∷ ms) h =
    subst (λ i. Numbered i (drop k ms)) (omega (arith, length-drop k ms))
      (Numbered-drop (suc n) k ms h.1)

-- On a numbered list the test of each cursor is a cut at one place.
pub after-drop :
    (n from : ℕ) (ms : List Message) → Numbered n ms → after from ms ≡ drop (from - n) ms
after-drop n from [] h = sym (drop-nil (from - n))
after-drop n from (m ∷ ms) h = elim (dec_lt from m.cursor) [
  | yes p ↦
      let here : from - n ≡ 0 = omega (arith, h.0) in
      let later : from - suc n ≡ 0 = omega arith in
      rw (if_pos _ p, here) (ap (◌∷◌ m) (rw later at (after-drop (suc n) from ms h.1)))
  | no p ↦
      let e : from - n ≡ suc (from - suc n) = omega (arith, h.0) in
      rw (if_neg _ p, e) (after-drop (suc n) from ms h.1)
]

-- Reading past the end finds nothing.
pub get_elem?-eq-none {ℓ} :
    {A : Type ℓ} (xs : List A) (i : ℕ) → length xs ≤ i → get_elem? xs i ≡ none
get_elem?-eq-none [] i h = refl
get_elem?-eq-none (x ∷ xs) zero h = absurd (omega arith)
get_elem?-eq-none (x ∷ xs) (suc i) h = get_elem?-eq-none xs i (omega arith)

pub get_elem?-drop {ℓ} :
    {A : Type ℓ} (k i : ℕ) (xs : List A) → get_elem? (drop k xs) i ≡ get_elem? xs (k + i)
get_elem?-drop zero i xs = ap (get_elem? xs) (omega arith)
get_elem?-drop (suc k) i [] = refl
get_elem?-drop (suc k) i (x ∷ xs) =
    let e : suc k + i ≡ suc (k + i) = omega arith in rw e (get_elem?-drop k i xs)
