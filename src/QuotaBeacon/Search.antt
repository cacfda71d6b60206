-- ===== src/QuotaBeacon/Search.antt =====
-- What the steps of the search for the expression find.
use wifigateway_server.Base.{
  ℕ, suc, ◌≤◌, ◌≡◌, ◌≢◌, inl, inr, refl, sym, ap, ◌∙◌, Bool, true, false, Option, none, some, [],
  ◌∷◌, ◌++◌, arith, Bool-cases, ◌||◌, if◌then◌else◌, Option-cases,
}
use mathlib.Core.Path.{subst}
use mathlib.Core.List.{tail-eq_of_cons-eq}
use wifigateway_server.Qt.Text.{QString, is_empty}
use wifigateway_server.FileWatcher.{length}
use wifigateway_server.QuotaBeacon.Pattern.{
  first, or_else, strip, continue_with, after_text, word, address,
}

-- The leftmost place: what was skipped, and what is left from there.
pub record Leftmost (f : QString → Option QString) (s a : QString) : Type 0 where
  pub skipped : QString
  pub rest : QString
  pub parts : s ≡ skipped ++ rest
  pub found : f rest ≡ some a
  pub least :
      (other more : QString) → s ≡ other ++ more → f more ≢ none → length skipped ≤ length other

or_else-none : (o later : Option QString) → or_else o later ≡ none → later ≡ none
or_else-none none later e = e
or_else-none (some a) later e = absurd (cc)

module _ (f : QString → Option QString) where
  pub first-none : (skipped rest : QString) → first f (skipped ++ rest) ≡ none → f rest ≡ none
  first-none [] [] e = e
  first-none [] (c ∷ s) e = elim (Option-cases (f (c ∷ s))) [
    | inl here ↦ here
    | inr (a, here) ↦ absurd (ground (arith, here, e))
  ]
  first-none (c ∷ skipped) rest e =
      first-none skipped rest (or_else-none (f (c ∷ (skipped ++ rest))) _ e)

  later_least :
      (c n : ℕ) (s : QString)
      → f (c ∷ s) ≡ none
      → ((other more : QString) → s ≡ other ++ more → f more ≢ none → n ≤ length other)
      → (other more : QString) → c ∷ s ≡ other ++ more
      → f more ≢ none
      → suc n ≤ length other
  later_least c n s here least [] more p x = absurd (x (ap f (sym p) ∙ here))
  later_least c n s here least (d ∷ other) more p x =
      let below : n ≤ length other = least other more (tail-eq_of_cons-eq p) x in
      omega (arith, below)

  pub first-Leftmost : (s a : QString) → first f s ≡ some a → Leftmost f s a
  first-Leftmost [] a e = record {
    skipped = [];
    rest = [];
    parts = refl;
    found = e;
    least = λ other more p x. omega arith;
  }
  first-Leftmost (c ∷ s) a e = elim (Option-cases (f (c ∷ s))) [
    | inl here ↦
        let m : Leftmost f s a = first-Leftmost s a (ground (arith, here, e)) in
        record {
          skipped = c ∷ m.skipped;
          rest = m.rest;
          parts = ap (λ (r : QString). c ∷ r) m.parts;
          found = m.found;
          least = later_least c (length m.skipped) s here m.least;
        }
    | inr (b, here) ↦ record {
      skipped = [];
      rest = c ∷ s;
      parts = refl;
      found = ground (arith, here, e);
      least = λ other more p x. omega arith;
    }
  ]

strip_text : (p r : QString) → strip p (p ++ r) ≡ some r
strip_text [] r = refl
strip_text (c ∷ p) r = ground (arith, strip_text p r)

pub strip-parts : (p s r : QString) → strip p s ≡ some r → s ≡ p ++ r
strip-parts [] s r e = cc
strip-parts (c ∷ p) [] r e = absurd cc
strip-parts (c ∷ p) (d ∷ s) r e = ground (arith, strip-parts p s r)

pub after_text_lem : (f : QString → Option QString) (p r : QString) → after_text p f (p ++ r) ≡ f r
after_text_lem f p r = ap (continue_with f) (strip_text p r)

pub after_text-parts :
    (f : QString → Option QString) (p s a : QString)
    → after_text p f s ≡ some a
    → (r : QString) × (s ≡ p ++ r) × (f r ≡ some a)
after_text-parts f p s a e = elim (Option-cases (strip p s)) [
  | inl mismatch ↦ absurd (ground (arith, mismatch, e))
  | inr (r, matches) ↦ (r, strip-parts p s r matches, ground (arith, matches, e))
]

chosen :
    (w rest ip : QString)
    → (if is_empty w || is_empty rest then none else some w) ≡ some ip
    → (w ≡ ip) × (is_empty w ≡ false) × (is_empty rest ≡ false)
chosen [] rest ip e = absurd cc
chosen (c ∷ w) [] ip e = absurd cc
chosen (c ∷ w) (d ∷ rest) ip e = (cc, refl, refl)

module _ (is_space : ℕ → Bool) where
  abbrev pub IsWord : QString → Type 0
  IsWord [] = Unit {0}
  IsWord (c ∷ s) = (is_space c ≡ false) × IsWord s

  abbrev pub StartsWithSpace : QString → Type 0
  StartsWithSpace [] = ⊥
  StartsWithSpace (c ∷ s) = is_space c ≡ true

  -- A word that is not empty, and white space after it.
  abbrev pub IsAddress : QString → QString → Type 0
  IsAddress ip rest = (is_empty ip ≡ false) × IsWord ip × StartsWithSpace rest

  word_text :
      (w rest : QString) → IsWord w → StartsWithSpace rest → word is_space (w ++ rest) ≡ (w, rest)
  word_text [] [] v x = absurd x
  word_text [] (c ∷ rest) v x = ground (arith, x)
  word_text (c ∷ w) rest (here, v) x = ground (arith, here, word_text w rest v x)

  word_lem :
      (s : QString)
      → (s ≡ (word is_space s).0 ++ (word is_space s).1)
        × IsWord (word is_space s).0
        × (is_empty (word is_space s).1 ≡ false → StartsWithSpace (word is_space s).1)
  word_lem [] = (refl, tt, λ e. absurd (cc))
  word_lem (c ∷ s) = elim (Bool-cases (is_space c)) [
    | inl space ↦ rw space (refl, tt, λ e. space)
    | inr other ↦
        let (parts, v, x) = word_lem s in
        rw other (ap (λ (r : QString). c ∷ r) parts, (other, v), x)
  ]

  pub address_text :
      (ip rest : QString) → IsAddress ip rest → address is_space (ip ++ rest) ≡ some ip
  address_text ip rest (some_unit, v, x) = rw (word_text ip rest v x) (ground (arith, some_unit, x))

  pub address-parts :
      (s ip : QString)
      → address is_space s ≡ some ip
      → (rest : QString) × (s ≡ ip ++ rest) × IsAddress ip rest
  address-parts s ip e =
      let (w, rest) = word is_space s in
      let (parts, v, x) = word_lem s in
      let (same, some_unit, some_rest) = chosen w rest ip e in
      (
        rest,
        parts ∙ ap (λ (l : QString). l ++ rest) same,
        (
          subst (λ (l : QString). is_empty l ≡ false) same some_unit,
          subst IsWord same v,
          x some_rest,
        ),
      )
