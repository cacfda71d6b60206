-- ===== src/FileWatcher/Opening.antt =====
-- The constructor of FileWatcher, and its slot for a file that grows.
use wifigateway_server.Base.{
  ◌%◌, ◌^◌, ◌<◌, ◌≡◌, Bool, true, Option, none, some, [], ◌++◌, if◌then◌else◌,
}
use wifigateway_server.Qt.Text.{QString}
use wifigateway_server.FileWatcher.{
  File, FileWatcher, shown, length, map_lines, watched_file_changed, size, get_inode,
}
use wifigateway_server.FileWatcher.Lines.{lines, FirstFits, AllSpeak}
use wifigateway_server.FileWatcher.Following.{grown, scan-grown, not_newer}

-- How the constructor ends: with an object, or with one of its two exceptions.
pub data Opening : Type 0 where
  opened : FileWatcher → Opening
  missing no_permission : Opening

-- `readable` is `permissions() & QFile::ReadUser`.
unfoldable pub open_watcher : Bool → Option File → Opening
open_watcher readable none = missing
open_watcher readable (some f) =
    if readable
    then opened (record {
      watching = true;
      curr_size = size (some f) % 2 ^ 32;
      inode = get_inode (some f);
      emitted = [];
    })
    else no_permission

module _ (trimmed : QString → QString) where
  -- The slot for the file, when a text has been appended to it.
  pub change_lem :
      (f : File) (new : QString) (w : FileWatcher)
      → f.openable ≡ true
      → w.inode ≡ f.inode
      → w.curr_size ≡ length f.bytes
      → FirstFits new
      → AllSpeak (lines new)
      → length (f.bytes ++ new) < 2 ^ 32
      → watched_file_changed trimmed (some (grown trimmed f new)) w ≡ record w {
        emitted = w.emitted ++ map_lines (shown trimmed) (lines new);
        curr_size = length (f.bytes ++ new);
      }
  unfolding watched_file_changed
  change_lem f new w opens i e fits speak small =
      rw (not_newer trimmed f new w i e) (scan-grown trimmed f new w opens e fits speak small)
