-- ===== src/Qt/Number.antt =====
-- QString::number: the decimal digits of an unsigned and of a signed integer.
use wifigateway_server.Base.{
  ℕ, zero, suc, ◌+◌, ◌-◌, ◌*◌, ◌/◌, ◌%◌, ◌<◌, ◌≡◌, refl, false, [], ◌∷◌, arith, ltb, if◌then◌else◌,
}
use wifigateway_server.Base.Int.{ℤ, pos, negsuc}
use wifigateway_server.Qt.Text.{QString, has_space, is_empty}

-- The digits of `n` in front of `acc`; a number needs no more digits than itself plus one.
pub digits : ℕ → ℕ → QString → QString
digits zero n acc = acc
digits (suc fuel) n acc =
    let rest = digits fuel (n / 10) ((b'0' + n % 10) ∷ acc) in
    if ltb n 10 then (b'0' + n) ∷ acc else rest

unfoldable pub number : ℕ → QString
unfolding digits
number n = digits (suc n) n []

unfoldable pub number_int : ℤ → QString
unfolding number
number_int (pos n) = number n
number_int (negsuc n) = b'-' ∷ number (suc n)

-- Reading the digits back, most significant first.
abbrev pub read_from : ℕ → QString → ℕ
read_from acc [] = acc
read_from acc (d ∷ ds) = read_from (acc * 10 + (d - b'0')) ds

read_from-digits :
    (fuel n : ℕ) (acc : QString) → n < fuel → read_from 0 (digits fuel n acc) ≡ read_from n acc
unfolding digits
read_from-digits zero n acc h = elim h [ ]
read_from-digits (suc fuel) n acc h =
    ground (arith, read_from-digits fuel (n / 10) ((b'0' + n % 10) ∷ acc))

-- No digit is lost or made up: a number is read back from its text.
pub read-number : (n : ℕ) → read_from 0 (number n) ≡ n
unfolding number
read-number n = read_from-digits (suc n) n [] (omega arith)

-- Numbers are written without spaces.
has_space-digits : (fuel n : ℕ) (acc : QString) → has_space (digits fuel n acc) ≡ has_space acc
unfolding digits
has_space-digits zero n acc = refl
has_space-digits (suc fuel) n acc =
    ground (arith, has_space-digits fuel (n / 10) ((b'0' + n % 10) ∷ acc))

pub has_space-number : (n : ℕ) → has_space (number n) ≡ false
unfolding number
has_space-number n = has_space-digits (suc n) n []

pub has_space-number_int : (z : ℤ) → has_space (number_int z) ≡ false
unfolding number_int
has_space-number_int (pos n) = has_space-number n
has_space-number_int (negsuc n) = has_space-number (suc n)

-- A number has a digit.
digits_some : (fuel n d : ℕ) (acc : QString) → is_empty (digits fuel n (d ∷ acc)) ≡ false
unfolding digits
digits_some zero n d acc = refl
digits_some (suc fuel) n d acc = ground (arith, digits_some fuel (n / 10) (b'0' + n % 10) (d ∷ acc))

pub number_some : (n : ℕ) → is_empty (number n) ≡ false
unfolding number
number_some n = ground (arith, digits_some n (n / 10) (b'0' + n % 10) [])

pub number_int_some : (z : ℤ) → is_empty (number_int z) ≡ false
unfolding number_int
number_int_some (pos n) = number_some n
number_int_some (negsuc n) = refl
