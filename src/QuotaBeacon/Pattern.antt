-- ===== src/QuotaBeacon/Pattern.antt =====
-- The expression of quotabeacon.cpp, GW_SESSION_1MB_HACK.*SRC=([^\s]+)\s.* with minimal
-- quantifiers, as a search: each .* stands for a search of what follows it, from left to right.
use wifigateway_server.Base.{ℕ, Bool, ◌||◌, Option, none, some, [], ◌∷◌, ◌==◌, if◌then◌else◌}
use wifigateway_server.Qt.Text.{QString, codes, is_empty}

abbrev pub gw_quota_prefix : QString
gw_quota_prefix = codes "GW_SESSION_1MB_HACK"

abbrev pub source_mark : QString
source_mark = codes "SRC="

abbrev pub or_else : Option QString → Option QString → Option QString
or_else none later = later
or_else (some a) later = some a

-- What `f` gives at the leftmost place where it gives something.
abbrev pub first : (QString → Option QString) → QString → Option QString
first f [] = f []
first f (c ∷ s) = or_else (f (c ∷ s)) (first f s)

-- What is left of a text after a literal.
abbrev pub strip : QString → QString → Option QString
strip [] s = some s
strip (c ∷ p) [] = none
strip (c ∷ p) (d ∷ s) = let rest = strip p s in if c == d then rest else none

abbrev pub continue_with : (QString → Option QString) → Option QString → Option QString
continue_with f none = none
continue_with f (some rest) = f rest

abbrev pub after_text : QString → (QString → Option QString) → QString → Option QString
after_text p f s = continue_with f (strip p s)

abbrev pub cap : Option QString → QString
cap none = []
cap (some text) = text

-- `is_space` is QChar::isSpace.
module _ (is_space : ℕ → Bool) where
  -- The units before the first white space, and the rest.
  abbrev pub word : QString → QString × QString
  word [] = ([], [])
  word (c ∷ s) = let (w, rest) = word s in if is_space c then ([], c ∷ s) else (c ∷ w, rest)

  -- ([^\s]+)\s.
  abbrev pub address : QString → Option QString
  address s = let (w, rest) = word s in if is_empty w || is_empty rest then none else some w

  abbrev pub source_address : QString → Option QString
  source_address = first (after_text source_mark address)

  -- `indexIn(line)` and `cap(1)`, which is empty if there is no match.
  unfoldable pub captured : QString → QString
  captured line = cap (first (after_text gw_quota_prefix source_address) line)
