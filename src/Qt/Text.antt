-- ===== src/Qt/Text.antt =====
-- QString as its list of UTF-16 code units: equality, and the order that QMap sorts its keys by.
use Prim.Native.Nat.{compare, Ordering}
use Prim.Native.Char.{code}
use Prim.Native.String.{String}
use wifigateway_server.Base.{
  ℕ, ◌≡◌, refl, Bool, true, false, List, [], ◌∷◌, arith, ◌==◌, ◌||◌, if◌then◌else◌,
}
use native.Mathlib.Decide.{ℕ_discrete}

abbrev pub QString : Type 0
QString = List ℕ

-- The code units of a literal (the source's literals are ASCII).
abbrev pub codes : String → QString
codes String.[] = []
codes (String.◌∷◌ c s) = code c ∷ codes s

abbrev pub is_empty : QString → Bool
is_empty [] = true
is_empty (_ ∷ _) = false

-- A QByteArray as a QString: Qt 4 reads it up to its first NUL, each byte as a unit of Latin-1.
abbrev pub of_bytes : QString → QString
of_bytes [] = []
of_bytes (b ∷ s) = let rest = of_bytes s in if b == 0 then [] else b ∷ rest

abbrev pub has_space : QString → Bool
has_space [] = false
has_space (c ∷ s) = (c == b' ') || has_space s

-- `operator<` and `operator==` of QString in one: by the first unit that differs.
unfoldable pub compare_str : QString → QString → Ordering
compare_str [] [] = Ordering.eq
compare_str [] (_ ∷ _) = Ordering.lt
compare_str (_ ∷ _) [] = Ordering.gt
compare_str (a ∷ s) (b ∷ t) =
    let rest = compare_str s t in
    elim (compare a b) [
      | Ordering.lt ↦ Ordering.lt
      | Ordering.eq ↦ rest
      | Ordering.gt ↦ Ordering.gt
    ]

pub compare_str_self : (s : QString) → compare_str s s ≡ Ordering.eq
unfolding compare_str
compare_str_self [] = refl
compare_str_self (a ∷ s) = ground (arith, compare_str_self s)

pub eq-of-compare_str : (s t : QString) → compare_str s t ≡ Ordering.eq → s ≡ t
unfolding compare_str
eq-of-compare_str [] [] h = refl
eq-of-compare_str [] (b ∷ t) h = cc
eq-of-compare_str (a ∷ s) [] h = cc
eq-of-compare_str (a ∷ s) (b ∷ t) h = ground (arith, eq-of-compare_str s t)

pub compare_str_swap :
    (s t : QString) → compare_str s t ≡ Ordering.gt → compare_str t s ≡ Ordering.lt
unfolding compare_str
compare_str_swap [] [] h = cc
compare_str_swap [] (b ∷ t) h = cc
compare_str_swap (a ∷ s) [] h = refl
compare_str_swap (a ∷ s) (b ∷ t) h = ground (arith, compare_str_swap s t)

pub compare_str_trans :
    (s t u : QString)
    → compare_str s t ≡ Ordering.lt
    → compare_str t u ≡ Ordering.lt
    → compare_str s u ≡ Ordering.lt
unfolding compare_str
compare_str_trans [] t [] h k = ground (arith, t)
compare_str_trans [] t (c ∷ u) h k = refl
compare_str_trans (a ∷ s) [] u h k = cc
compare_str_trans (a ∷ s) (b ∷ t) [] h k = cc
compare_str_trans (a ∷ s) (b ∷ t) (c ∷ u) h k = ground (arith, compare_str_trans s t u)

-- Two texts are equal or differ.
pub QString-discrete : Discrete QString
QString-discrete = hlevel ℕ_discrete
