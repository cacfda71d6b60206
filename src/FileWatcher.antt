-- ===== src/FileWatcher.antt =====
-- filewatcher/filewatcher.h/.cpp: a file that is identified by its name, and read on from where the
-- last scan ended.
pub mod Lines
pub mod Following
pub mod Opening
pub mod Rotation
use wifigateway_server.Base.{
  ℕ, zero, suc, ◌+◌, ◌-◌, ◌%◌, ◌^◌, Bool, true, false, ◌&&◌, ◌||◌, Option, none, some, List, [],
  ◌∷◌, ◌++◌, ◌==◌, ltb, if◌then◌else◌,
}
use wifigateway_server.Qt.Text.{QString, is_empty, of_bytes}

-- What the name stands for on the disk at the time of a slot: `none` is no file. `openable` is
-- whether the process may open it.
pub record File : Type 0 where
  pub inode : ℕ
  pub openable : Bool
  pub bytes : QString

-- `watching` tells whether the name is in `watcher.files()`; `emitted` has the lines signalled, the
-- first one first.
pub record FileWatcher : Type 0 where
  pub watching : Bool
  pub curr_size : ℕ
  pub inode : ℕ
  pub emitted : List QString

abbrev pub length : QString → ℕ
length [] = 0
length (_ ∷ s) = suc (length s)

abbrev pub drop : ℕ → QString → QString
drop zero s = s
drop (suc n) [] = []
drop (suc n) (_ ∷ s) = drop n s

-- `readLine(n)`: at most `n` bytes, and no more than the next newline, which is kept; what is left.
abbrev pub read_line : ℕ → QString → QString × QString
read_line zero bytes = ([], bytes)
read_line (suc n) [] = ([], [])
read_line (suc n) (b ∷ bytes) =
    let (line, rest) = read_line n bytes in if b == b'\n' then (b ∷ [], bytes) else (b ∷ line, rest)

-- `readLine()`, without a limit.
abbrev pub read_whole_line : QString → QString × QString
read_whole_line bytes = read_line (length bytes) bytes

-- The loop of `scan`, which has read `line` and has `rest` to go: the lines that it goes on with,
-- and what it leaves unread. It stops at a line that is empty as a QString. A round takes a byte at
-- least, so that fuel for each byte is enough.
pub read_lines : ℕ → QString → QString → List QString × QString
read_lines zero line rest = ([], rest)
read_lines (suc fuel) line rest =
    let (next, rest') = read_whole_line rest in
    let (more, unread) = read_lines fuel next rest' in
    if is_empty (of_bytes line) then ([], rest) else (line ∷ more, unread)

-- One scan: the first line is read with a limit, the others without.
pub scan_all : QString → List QString × QString
unfolding read_lines
scan_all bytes =
    let (line, rest) = read_line 1024 bytes in read_lines (suc (length bytes)) line rest

pub scan_lines : QString → List QString
scan_lines bytes = (scan_all bytes).0

pub scan_rest : QString → QString
scan_rest bytes = (scan_all bytes).1

abbrev pub map_lines : (QString → QString) → List QString → List QString
map_lines f [] = []
map_lines f (l ∷ ls) = f l ∷ map_lines f ls

abbrev pub get_inode : Option File → ℕ
get_inode none = 0
get_inode (some f) = f.inode

abbrev pub size : Option File → ℕ
size none = 0
size (some f) = length f.bytes

-- `isFileNewer`.
abbrev pub is_file_newer : Option File → FileWatcher → Bool
is_file_newer disk w = if get_inode disk == w.inode then ltb (size disk) w.curr_size else true

-- `trimmed` is QString::trimmed.
module _ (trimmed : QString → QString) where
  -- A line as it is emitted.
  abbrev pub shown : QString → QString
  shown line = trimmed (of_bytes line)

  -- `currSize` is an unsigned int. A file that is not there cannot be opened.
  pub scan : Option File → FileWatcher → FileWatcher
  scan none w = w
  scan (some f) w =
      let rest = drop w.curr_size f.bytes in
      let x = record w {
        emitted = w.emitted ++ map_lines shown (scan_lines rest);
        curr_size = (w.curr_size + (length rest - length (scan_rest rest))) % 2 ^ 32;
      } in
      if f.openable then x else w

  pub watched_file_changed : Option File → FileWatcher → FileWatcher
  watched_file_changed disk w =
      if is_file_newer disk w then scan disk (record w { curr_size = 0 }) else scan disk w

  -- `addPath` watches a file that is there.
  pub watched_dir_changed : Option File → FileWatcher → FileWatcher
  watched_dir_changed none w = w
  watched_dir_changed (some f) w =
      if w.watching
      then w
      else scan (some f) (record w { watching = true; curr_size = 0; inode = f.inode })
