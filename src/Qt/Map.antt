-- ===== src/Qt/Map.antt =====
-- QMap with QString keys: an association list in the order of its keys, each key once.
use Prim.Native.Nat.{Ordering}
use wifigateway_server.Base.{
  ℕ, ◌≡◌, refl, ap, ◌≢◌, Bool, true, false, Option, none, some, List, [], ◌∷◌, map, arith, ◌==◌,
  if◌then◌else◌,
}
use wifigateway_server.Qt.Text.{
  QString, compare_str, compare_str_self, eq-of-compare_str, compare_str_swap, compare_str_trans,
}

abbrev pub QMap {ℓ} : Type ℓ → Type ℓ
QMap V = List (QString × V)

module _ {ℓ} {V : Type ℓ} where
  -- `value`, where a key that is missing gives the default: here `none`.
  unfoldable pub lookup : QString → QMap V → Option V
  lookup k [] = none
  lookup k ((j, v) ∷ m) = elim (compare_str k j) [ Ordering.eq ↦ some v | _ ↦ lookup k m ]

  abbrev pub contains : QString → QMap V → Bool
  contains k m = elim (lookup k m) [ none ↦ false | some _ ↦ true ]

  -- `insert` replaces the value of a key that is there.
  unfoldable pub insert : QString → V → QMap V → QMap V
  insert k v [] = (k, v) ∷ []
  insert k v ((j, w) ∷ m) =
      let rest = insert k v m in
      elim (compare_str k j) [
        | Ordering.lt ↦ (k, v) ∷ (j, w) ∷ m
        | Ordering.eq ↦ (k, v) ∷ m
        | Ordering.gt ↦ (j, w) ∷ rest
      ]

  unfoldable pub remove : QString → QMap V → QMap V
  remove k [] = []
  remove k ((j, w) ∷ m) =
      let rest = remove k m in elim (compare_str k j) [ Ordering.eq ↦ m | _ ↦ (j, w) ∷ rest ]

  abbrev pub keys : QMap V → List QString
  keys = map λ e. e.0

  abbrev pub values : QMap V → List V
  values = map λ e. e.1

  -- Every key lies above `k`.
  abbrev pub Above : QString → QMap V → Type 0
  Above k [] = Unit {0}
  Above k ((j, _) ∷ m) = (compare_str k j ≡ Ordering.lt) × Above k m

  abbrev pub IsSorted : QMap V → Type 0
  IsSorted [] = Unit {0}
  IsSorted ((k, _) ∷ m) = Above k m × IsSorted m

  pub lookup-insert_self : (k : QString) (v : V) (m : QMap V) → lookup k (insert k v m) ≡ some v
  unfolding lookup insert
  lookup-insert_self k v [] = ground (arith, compare_str_self k)
  lookup-insert_self k v ((j, w) ∷ m) = ground (arith, compare_str_self k, lookup-insert_self k v m)

  pub lookup-insert_ne :
      (k j : QString) (v : V) (m : QMap V) → j ≢ k → lookup j (insert k v m) ≡ lookup j m
  unfolding lookup insert
  lookup-insert_ne k j v [] h = ground (arith, eq-of-compare_str j k)
  lookup-insert_ne k j v ((i, w) ∷ m) h =
      ground (arith, eq-of-compare_str j k, eq-of-compare_str k i, lookup-insert_ne k j v m h)

  pub lookup-cons_self : (k : QString) (v : V) (m : QMap V) → lookup k ((k, v) ∷ m) ≡ some v
  unfolding lookup
  lookup-cons_self k v m = ground (arith, compare_str_self k)

  pub lookup-cons_ne :
      (k j : QString) (v : V) (m : QMap V) → j ≢ k → lookup j ((k, v) ∷ m) ≡ lookup j m
  unfolding lookup
  lookup-cons_ne k j v m h = ground (arith, eq-of-compare_str j k)

  pub lookup-Above : (k : QString) (m : QMap V) → Above k m → lookup k m ≡ none
  unfolding lookup
  lookup-Above k [] h = refl
  lookup-Above k ((j, w) ∷ m) h = ground (arith, lookup-Above k m h.1)

  Above-trans : (i k : QString) (m : QMap V) → compare_str i k ≡ Ordering.lt → Above k m → Above i m
  Above-trans i k [] h a = tt
  Above-trans i k ((j, w) ∷ m) h a = (compare_str_trans i k j h a.0, Above-trans i k m h a.1)

  Above-insert :
      (i k : QString) (v : V) (m : QMap V)
      → compare_str i k ≡ Ordering.lt
      → Above i m
      → Above i (insert k v m)
  unfolding insert
  Above-insert i k v [] h a = (h, tt)
  Above-insert i k v ((j, w) ∷ m) h a = ground (arith, Above-insert i k v m h a.1)

  pub insert-IsSorted : (k : QString) (v : V) (m : QMap V) → IsSorted m → IsSorted (insert k v m)
  unfolding insert
  insert-IsSorted k v [] s = (tt, tt)
  insert-IsSorted k v ((j, w) ∷ m) s = ground (
    arith,
    eq-of-compare_str k j,
    compare_str_swap k j,
    Above-trans k j m,
    Above-insert j k v m,
    insert-IsSorted k v m s.1,
  )

  Above-remove : (i k : QString) (m : QMap V) → Above i m → Above i (remove k m)
  unfolding remove
  Above-remove i k [] a = tt
  Above-remove i k ((j, w) ∷ m) a = ground (arith, Above-remove i k m a.1)

  pub remove-IsSorted : (k : QString) (m : QMap V) → IsSorted m → IsSorted (remove k m)
  unfolding remove
  remove-IsSorted k [] s = tt
  remove-IsSorted k ((j, w) ∷ m) s = ground (arith, Above-remove j k m s.0, remove-IsSorted k m s.1)

  pub lookup-remove_self : (k : QString) (m : QMap V) → IsSorted m → lookup k (remove k m) ≡ none
  unfolding lookup remove
  lookup-remove_self k [] s = refl
  lookup-remove_self k ((j, w) ∷ m) s =
      ground (arith, eq-of-compare_str k j, lookup-Above j m s.0, lookup-remove_self k m s.1)

  pub lookup-remove_ne : (k j : QString) (m : QMap V) → j ≢ k → lookup j (remove k m) ≡ lookup j m
  unfolding lookup remove
  lookup-remove_ne k j [] h = refl
  lookup-remove_ne k j ((i, w) ∷ m) h =
      ground (arith, eq-of-compare_str j i, eq-of-compare_str k i, lookup-remove_ne k j m h)

-- Keys above a key are other keys.
pub Above-ne : (i k : QString) → compare_str i k ≡ Ordering.lt → k ≢ i
Above-ne i k h same = ground (arith, compare_str_self i, ap (compare_str i) same)

-- A key that is there is none that is not.
pub ne-of-lookup {ℓ} :
    {V : Type ℓ} (m : QMap V) (j k : QString) {v : V}
    → lookup j m ≡ some v
    → lookup k m ≡ none
    → j ≢ k
ne-of-lookup m j k e f same = ground (arith, ap (λ (i : QString). lookup i m) same)

-- `key(value)`: the first key with that value, and the default, an empty string, if there is none.
unfoldable pub key_of : ℕ → QMap ℕ → QString
key_of v [] = []
key_of v ((k, w) ∷ m) = if v == w then k else key_of v m

-- The key that is found is one under which the value stands.
pub lookup-key_of :
    (v : ℕ) (m : QMap ℕ) (k : QString)
    → IsSorted m
    → lookup k m ≡ some v
    → lookup (key_of v m) m ≡ some v
unfolding lookup key_of
lookup-key_of v [] k s e = cc
lookup-key_of v ((j, w) ∷ m) k s e = ground (
  arith,
  compare_str_self j,
  lookup-Above j m s.0,
  eq-of-compare_str k j,
  eq-of-compare_str (key_of v m) j,
  lookup-key_of v m k s.1,
)
