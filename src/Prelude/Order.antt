-- ===== src/Prelude/Order.antt =====
-- The bound `K: Ord` that a `BTreeMap` puts on its keys, with instances for cursors and texts.
-- A text is the list of its bytes, and texts compare byte by byte.
use Prim.Native.String.{String}
use Prim.Native.Char.{code}
use Prim.Native.Nat.Ordering.{eq, gt, lt}
use Prim.Native.Nat.{ℕ, Ordering, compare}
use mathlib.Core.Path.{◌≡◌, refl}
use mathlib.Core.Logic.{◌↔◌}
use mathlib.Core.Bool.{Bool, true, false}
use mathlib.Core.List.{List, [], ◌∷◌}
use native.Mathlib.Omega.{arith}

pub record Order {ℓ} (K : Type ℓ) : Type ℓ where
  pub cmp : K → K → Ordering
  pub cmp_iff : (j k : K) → (cmp j k ≡ eq) ↔ (j ≡ k)
  pub cmp_trans : (i j k : K) → cmp i j ≡ lt → cmp j k ≡ lt → cmp i k ≡ lt
  pub cmp_flip : (j k : K) → cmp j k ≡ gt → cmp k j ≡ lt

-- `a == b` for keys.
abbrev pub same {ℓ} : {K : Type ℓ} ⦃o : Order K⦄ → K → K → Bool
same ⦃o⦄ a b = elim (o.cmp a b) [ eq ↦ true | _ ↦ false ]

module _ {ℓ} {K : Type ℓ} ⦃o : Order K⦄ where
  pub same_refl : (k : K) → same k k ≡ true
  same_refl k = ground (arith, (o.cmp_iff k k).1 refl)

  pub same_eq : (j k : K) → same j k ≡ true → j ≡ k
  same_eq j k h = ground (arith, o.cmp_iff j k)

pub compare_iff : (a b : ℕ) → (compare a b ≡ eq) ↔ (a ≡ b)
compare_iff a b = ground arith

pub compare_flip : (a b : ℕ) → compare a b ≡ gt → compare b a ≡ lt
compare_flip a b h = ground arith

pub compare_trans : (a b c : ℕ) → compare a b ≡ lt → compare b c ≡ lt → compare a c ≡ lt
compare_trans a b c h k = ground arith

instance abbrev pub ℕ_order : Order ℕ
ℕ_order = record {
  cmp = compare;
  cmp_iff = compare_iff;
  cmp_flip = compare_flip;
  cmp_trans = compare_trans;
}

-- The bytes of a `String`.
abbrev pub Text : Type 0
Text = List ℕ

-- The bytes of an ASCII literal.
abbrev pub codes : String → Text
codes String.[] = []
codes (String.◌∷◌ c s) = code c ∷ codes s

unfoldable pub text_cmp : Text → Text → Ordering
text_cmp [] [] = eq
text_cmp [] (b ∷ t) = lt
text_cmp (a ∷ s) [] = gt
text_cmp (a ∷ s) (b ∷ t) = elim (compare a b) [ eq ↦ text_cmp s t | lt ↦ lt | gt ↦ gt ]

pub text_cmp_iff : (s t : Text) → (text_cmp s t ≡ eq) ↔ (s ≡ t)
unfolding text_cmp
text_cmp_iff [] [] = ground arith
text_cmp_iff [] (b ∷ t) = ground arith
text_cmp_iff (a ∷ s) [] = ground arith
text_cmp_iff (a ∷ s) (b ∷ t) = ground (arith, text_cmp_iff s t)

pub text_cmp_flip : (s t : Text) → text_cmp s t ≡ gt → text_cmp t s ≡ lt
unfolding text_cmp
text_cmp_flip [] [] h = ground arith
text_cmp_flip [] (b ∷ t) h = ground arith
text_cmp_flip (a ∷ s) [] h = ground arith
text_cmp_flip (a ∷ s) (b ∷ t) h = ground (arith, text_cmp_flip s t)

pub text_cmp_trans : (s t u : Text) → text_cmp s t ≡ lt → text_cmp t u ≡ lt → text_cmp s u ≡ lt
unfolding text_cmp
text_cmp_trans [] [] u h k = ground arith
text_cmp_trans [] (b ∷ t) [] h k = ground arith
text_cmp_trans [] (b ∷ t) (c ∷ u) h k = refl
text_cmp_trans (a ∷ s) [] u h k = ground arith
text_cmp_trans (a ∷ s) (b ∷ t) [] h k = ground arith
text_cmp_trans (a ∷ s) (b ∷ t) (c ∷ u) h k = ground (arith, text_cmp_trans s t u)

instance abbrev pub text_order : Order Text
text_order = record {
  cmp = text_cmp;
  cmp_iff = text_cmp_iff;
  cmp_flip = text_cmp_flip;
  cmp_trans = text_cmp_trans;
}
