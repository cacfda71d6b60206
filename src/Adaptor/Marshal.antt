-- ===== src/Adaptor/Marshal.antt =====
-- The operators << and >> that put a SessionExport on the bus and take it off again. A
-- QDBusArgument is the sequence of the typed values that it carries.
use wifigateway_server.Base.{ℕ, ◌≡◌, refl, Option, none, some, List, [], ◌∷◌, ◌++◌}
use wifigateway_server.Base.Int.{ℤ}
use wifigateway_server.Qt.Text.{QString}
use wifigateway_server.Adaptor.{SessionExport}

pub data Value : Type 0 where
  text : QString → Value
  int32 : ℤ → Value
  uint32 : ℕ → Value
  begin_structure end_structure : Value

abbrev pub Argument : Type 0
Argument = List Value

-- `argument << structure`.
pub marshal : Argument → SessionExport → Argument
marshal argument s =
    argument
    ++ (begin_structure
        ∷ text s.ip
        ∷ text s.mac
        ∷ int32 s.state
        ∷ uint32 s.bandwidth
        ∷ int32 s.time_remaining
        ∷ int32 s.quota_remaining
        ∷ uint32 s.activity_time_remaining
        ∷ uint32 s.update_time_remaining
        ∷ uint32 s.pause_time_remaining
        ∷ uint32 s.end_time_remaining
        ∷ uint32 s.session_time
        ∷ end_structure
        ∷ [])

-- The extractors: the next value, if it has the type that is asked for.
infixl 10 ◌>>=◌
abbrev ◌>>=◌ :
    {A B : Type 0}
    → Option (A × Argument)
    → (A × Argument → Option (B × Argument))
    → Option (B × Argument)
none >>= f = none
some r >>= f = f r

abbrev get_text : Argument → Option (QString × Argument)
get_text (text s ∷ rest) = some (s, rest)
get_text _ = none

abbrev get_int32 : Argument → Option (ℤ × Argument)
get_int32 (int32 n ∷ rest) = some (n, rest)
get_int32 _ = none

abbrev get_uint32 : Argument → Option (ℕ × Argument)
get_uint32 (uint32 n ∷ rest) = some (n, rest)
get_uint32 _ = none

abbrev open_structure : Argument → Option (Unit {0} × Argument)
open_structure (begin_structure ∷ rest) = some (tt, rest)
open_structure _ = none

abbrev close_structure : Argument → Option (Unit {0} × Argument)
close_structure (end_structure ∷ rest) = some (tt, rest)
close_structure _ = none

-- `argument >> structure`, in the order of the source; `none` is a value of another type.
pub unmarshal : Argument → Option (SessionExport × Argument)
unmarshal argument = do
  (_, a0) ← open_structure argument
  (ip, a1) ← get_text a0
  (mac, a2) ← get_text a1
  (state, a3) ← get_int32 a2
  (bandwidth, a4) ← get_uint32 a3
  (time_remaining, a5) ← get_int32 a4
  (quota_remaining, a6) ← get_int32 a5
  (activity_time_remaining, a7) ← get_uint32 a6
  (update_time_remaining, a8) ← get_uint32 a7
  (pause_time_remaining, a9) ← get_uint32 a8
  (end_time_remaining, a10) ← get_uint32 a9
  (session_time, a11) ← get_uint32 a10
  (_, rest) ← close_structure a11
  some (
    record {
      ip = ip;
      mac = mac;
      state = state;
      bandwidth = bandwidth;
      time_remaining = time_remaining;
      quota_remaining = quota_remaining;
      activity_time_remaining = activity_time_remaining;
      update_time_remaining = update_time_remaining;
      pause_time_remaining = pause_time_remaining;
      end_time_remaining = end_time_remaining;
      session_time = session_time;
    },
    rest,
  )

-- A record that is put on the bus is taken off unchanged, and what follows it is left.
pub unmarshal-marshal :
    (s : SessionExport) (rest : Argument) → unmarshal (marshal [] s ++ rest) ≡ some (s, rest)
unfolding unmarshal marshal
unmarshal-marshal s rest = refl
