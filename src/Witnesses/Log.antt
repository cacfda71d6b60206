-- ===== src/Witnesses/Log.antt =====
-- The log file and the quota that its lines use up, on concrete inputs.
use wifigateway_server.Base.{
  ℕ, ◌≤◌, ◌<◌, ◌⊎◌, Bool, ◌≡◌, refl, true, false, ◌==◌, List, [], ◌∷◌, ◌++◌, some, arith,
}
use wifigateway_server.Qt.Text.{QString, codes}
use wifigateway_server.Session.{Session, started, exhausted}
use wifigateway_server.FileWatcher.{
  File, FileWatcher, shown, length, map_lines, scan_lines, watched_file_changed,
  watched_dir_changed,
}
use wifigateway_server.FileWatcher.Lines.{lines}
use wifigateway_server.FileWatcher.Following.{replaced_twice}
use wifigateway_server.QuotaBeacon.{feed}
use wifigateway_server.FileWatcher.Opening.{opened, open_watcher}
use wifigateway_server.FileWatcher.Rotation.{
  Change, appended, emptied, removed, created, other_entry, texts, AllFit, react_each,
  open_watcher-react_each,
}
use wifigateway_server.QuotaBeacon.Pattern.{captured}
use wifigateway_server.QuotaBeacon.Capture.{Match, capture_lem}
use wifigateway_server.QuotaBeacon.Log.{log-Charges}
use wifigateway_server.QuotaBeacon.Usage.{Charges, uses}
use wifigateway_server.Base.Int.{pos}
use wifigateway_server.Controller.State.{Controller}
use wifigateway_server.Controller.Timer.{tick}
use wifigateway_server.Controller.Timeline.Ticks.{obliging}
use wifigateway_server.Controller.Refinement.Round.{Holds}
use wifigateway_server.QuotaBeacon.Exhaustion.{Running, lines_exhaust}
use wifigateway_server.Controller.Lifetime.Heap.{Inv, create-Inv, new_controller-Inv}
use wifigateway_server.Witnesses.{
  dir, client, session_in, holding, holding-Inv, nobody, found_client,
}

-- A stand-in for QString::trimmed, which leaves a text as it is.
abbrev unchanged : QString → QString
unchanged s = s

abbrev log_file : File
log_file = record { inode = 7; openable = true; bytes = b'a' ∷ b'\n' ∷ [] }

abbrev news : QString
news = b'b' ∷ b'c' ∷ b'\n' ∷ b'd' ∷ []

-- A watcher that has delivered the first line.
abbrev watcher : FileWatcher
watcher = record { watching = false; curr_size = 2; inode = 7; emitted = lines log_file.bytes }

abbrev other_file : File
other_file = record { inode = 8; openable = true; bytes = news }

replaced_twice_example :
    (watched_dir_changed unchanged
      (some other_file)
      (watched_file_changed unchanged (some other_file) watcher)).emitted
    ≡ (lines log_file.bytes ++ map_lines (shown unchanged) (scan_lines news))
      ++ map_lines (shown unchanged) (scan_lines news)
replaced_twice_example =
    replaced_twice unchanged other_file watcher refl (λ e. absurd (omega (arith, e)))

-- A stand-in for QChar::isSpace.
abbrev is_blank : ℕ → Bool
is_blank c = c == b' '

-- What iptables logs for a megabyte of the client, shortened.
abbrev hit : QString
hit = codes "kernel: GW_SESSION_1MB_HACK IN=eth0 SRC=" ++ client ++ codes " DST=x SRC=y "

-- A text is appended, the log is moved away and written anew, another name comes, and the log is
-- emptied.
abbrev changes : List Change
changes =
    appended (b'b' ∷ b'\n' ∷ b'c' ∷ b'\n' ∷ [])
    ∷ removed
    ∷ created (record { inode = 9; openable = true; bytes = b'd' ∷ b'\n' ∷ [] })
    ∷ other_entry
    ∷ emptied
    ∷ appended (hit ++ b'\n' ∷ [])
    ∷ []

fit : AllFit changes (some log_file)
fit = (
  (refl, omega arith, (refl, (refl, tt)), omega arith),
  (
    tt,
    (
      (refl, (refl, omega arith, (refl, tt), omega arith)),
      (tt, (tt, ((refl, omega arith, (refl, tt), omega arith), tt))),
    ),
  ),
)

open_watcher-react_each_example :
    (w : FileWatcher) × (open_watcher true (some log_file) ≡ opened w)
    × ((react_each unchanged changes (some log_file) w).emitted
        ≡ map_lines (shown unchanged) (lines (texts changes)))
open_watcher-react_each_example =
    open_watcher-react_each unchanged log_file changes refl (omega arith) fit

capture_example :
    ((captured is_blank hit ≡ []) × (Match is_blank hit → ⊥))
    ⊎ ((m : Match is_blank hit) × (captured is_blank hit ≡ m.ip)
        × ((n : Match is_blank hit)
            → (length m.before ≤ length n.before)
              × (n.before ≡ m.before → length m.between ≤ length n.between)))
capture_example = capture_lem is_blank hit

captured-hit : captured is_blank hit ≡ client
unfolding captured
captured-hit = refl

log-Charges_example :
    (w : FileWatcher) × (open_watcher true (some log_file) ≡ opened w)
    × Charges client 0
        (uses (captured is_blank) client (map_lines (shown unchanged) (lines (texts changes))))
        (session_in started)
        (holding (session_in started))
        (feed (captured is_blank) (react_each unchanged changes (some log_file) w).emitted)
log-Charges_example =
    log-Charges unchanged (captured is_blank) log_file changes client 0 (session_in started)
      (holding (session_in started)) refl (omega arith) fit (holding-Inv started)
      (found_client (session_in started), refl)

abbrev limited : Session
limited = record (session_in started) {
  quota_remaining = pos 2;
  time_remaining = pos 9;
  update_time_remaining = 5;
  activity_time_remaining = 5;
}

limited-Running : Running 2 limited
limited-Running = record {
  is_started = refl;
  has_quota = refl;
  in_time = omega arith;
  watched = omega arith;
  active = omega arith;
}

lines_exhaust_example :
    (b d : Controller) × (t : Session) × (feed
        (captured is_blank)
        (hit ∷ hit ∷ [])
        (holding limited)
      ≡ some (tt, b))
    × (tick (obliging dir) b ≡ some (tt, d))
    × Inv d
    × Holds d client 0 t
    × (2 ≤ uses (captured is_blank) client (hit ∷ hit ∷ []) → t.state ≡ exhausted)
    × (uses (captured is_blank) client (hit ∷ hit ∷ []) < 2 → t.state ≡ started)
lines_exhaust_example =
    lines_exhaust dir (captured is_blank) (hit ∷ hit ∷ []) client 0 2 limited (holding limited)
      (create-Inv client limited new_controller-Inv nobody refl) (found_client limited, refl)
      limited-Running
