-- ===== src/QuotaBeacon/Log.antt =====
-- The beacon with its watcher of the log file, and the controller that its signals go to.
use mathlib.Core.Path.{subst}
use wifigateway_server.Base.{ℕ, ◌^◌, ◌<◌, ◌≡◌, sym, true, some, List}
use wifigateway_server.Qt.Text.{QString}
use wifigateway_server.Session.{Session}
use wifigateway_server.Controller.State.{Controller}
use wifigateway_server.Controller.Lifetime.Heap.{Inv}
use wifigateway_server.Controller.Refinement.Round.{Holds}
use wifigateway_server.FileWatcher.{File, FileWatcher, shown, length, map_lines}
use wifigateway_server.FileWatcher.Lines.{lines}
use wifigateway_server.FileWatcher.Opening.{opened, open_watcher}
use wifigateway_server.FileWatcher.Rotation.{
  Change, AllFit, texts, react_each, open_watcher-react_each,
}
use wifigateway_server.QuotaBeacon.{feed}
use wifigateway_server.QuotaBeacon.Usage.{Charges, uses, feed-Charges}

-- Let the log be there, readable, and below 2^32 bytes when the beacon is made. Then texts are
-- appended to it, it is emptied, or removed and created again, or other names of its directory
-- change, with the slots run after each; each text ends with a newline or is empty and has a first
-- line of at most 1024 bytes and no line that starts with NUL, and a file can be opened and stays
-- below 2^32 bytes. In a controller that is in order, the quota of a session goes down by one for
-- each line so written that the expression matches, up to the line's first NUL, with the session's
-- IP, and stops at 0; a negative quota stays as it is. What was in the log before does not count.
pub log-Charges :
    (trimmed captured : QString → QString) (f : File) (chs : List Change) (ip : QString) (p : ℕ)
    (s : Session) (c : Controller)
    → f.openable ≡ true
    → length f.bytes < 2 ^ 32
    → AllFit chs (some f)
    → Inv c
    → Holds c ip p s
    → (w : FileWatcher) × (open_watcher true (some f) ≡ opened w)
      × Charges ip p
          (uses captured ip (map_lines (shown trimmed) (lines (texts chs))))
          s
          c
          (feed captured (react_each trimmed chs (some f) w).emitted)
log-Charges trimmed captured f chs ip p s c opens small fits v held =
    let (w, made, emitted) = open_watcher-react_each trimmed f chs opens small fits in
    let new_lines = map_lines (shown trimmed) (lines (texts chs)) in
    (
      w,
      made,
      subst
          (λ (ls : List QString). Charges ip p (uses captured ip new_lines) s c (feed captured ls))
          (sym emitted) (feed-Charges captured ip p new_lines s c v held),
    )
