-- ===== src/FileWatcher/Rotation.antt =====
-- FileWatcher on a log that is rotated: the file goes, another takes its name, or it is emptied.
use wifigateway_server.Base.{
  ℕ, ◌^◌, ◌<◌, ◌≡◌, refl, sym, ap, ◌∙◌, Bool-cases, inl, inr, true, false, Option, none, some, List,
  [], ◌∷◌, ◌++◌, arith, ltb,
}
use mathlib.Core.List.{append_assoc, append-nil}
use wifigateway_server.Qt.Text.{QString}
use wifigateway_server.FileWatcher.{
  File, FileWatcher, shown, length, map_lines, is_file_newer, scan, watched_file_changed,
  watched_dir_changed,
}
use wifigateway_server.FileWatcher.Lines.{lines, IsComplete, FirstFits, AllSpeak, lines_append}
use wifigateway_server.FileWatcher.Following.{map_lines_append, scan-grown}
use wifigateway_server.FileWatcher.Opening.{opened, open_watcher, change_lem}

-- What happens to the name that is watched, and to the other names of its directory.
pub data Change : Type 0 where
  appended : QString → Change
  emptied removed : Change
  created : File → Change
  other_entry : Change

-- The file of the name after a change.
abbrev pub after : Change → Option File → Option File
after (appended new) none = none
after (appended new) (some f) = some (record f { bytes = f.bytes ++ new })
after emptied none = none
after emptied (some f) = some (record f { bytes = [] })
after removed disk = none
after (created g) disk = some g
after other_entry disk = disk

-- What a change writes to the log.
abbrev pub text : Change → QString
text (appended new) = new
text emptied = []
text removed = []
text (created g) = g.bytes
text other_entry = []

abbrev pub texts : List Change → QString
texts [] = []
texts (ch ∷ chs) = text ch ++ texts chs

abbrev pub IsText : QString → QString → Type 0
IsText old new =
    IsComplete new × FirstFits new × AllSpeak (lines new) × (length (old ++ new) < 2 ^ 32)

-- A file is created only when there is none, and the other changes of a file are of one that is
-- there.
abbrev pub Fits : Change → Option File → Type 0
Fits (appended new) none = ⊥
Fits (appended new) (some f) = IsText f.bytes new
Fits emptied none = ⊥
Fits emptied (some f) = Unit {0}
Fits removed none = ⊥
Fits removed (some f) = Unit {0}
Fits (created g) none = (g.openable ≡ true) × IsText [] g.bytes
Fits (created g) (some f) = ⊥
Fits other_entry disk = Unit {0}

abbrev pub AllFit : List Change → Option File → Type 0
AllFit [] disk = Unit {0}
AllFit (ch ∷ chs) disk = Fits ch disk × AllFit chs (after ch disk)

-- The watcher is at the end of the file, or it waits for one.
abbrev pub Tracks : Option File → FileWatcher → Type 0
Tracks none w = w.watching ≡ false
Tracks (some f) w =
    (f.openable ≡ true) × (w.watching ≡ true) × (w.inode ≡ f.inode) × (w.curr_size ≡ length f.bytes)

Fits-IsComplete : (ch : Change) (disk : Option File) → Fits ch disk → IsComplete (text ch)
Fits-IsComplete (appended new) none fits = absurd fits
Fits-IsComplete (appended new) (some f) fits = fits.0
Fits-IsComplete emptied disk fits = tt
Fits-IsComplete removed disk fits = tt
Fits-IsComplete (created g) none fits = fits.1.0
Fits-IsComplete (created g) (some f) fits = absurd fits
Fits-IsComplete other_entry disk fits = tt

module _ (trimmed : QString → QString) where
  -- The slots that a change of the file on the disk runs. QFileSystemWatcher signals a change of
  -- the file while it is watched, and of the directory when a name comes or goes, and it stops to
  -- watch a file that has been renamed or removed.
  unfoldable pub react : Change → Option File → FileWatcher → FileWatcher
  react (appended new) disk w = watched_file_changed trimmed (after (appended new) disk) w
  react emptied disk w = watched_file_changed trimmed (after emptied disk) w
  react removed disk w =
      watched_dir_changed trimmed none
        (watched_file_changed trimmed none (record w { watching = false }))
  react (created g) disk w = watched_dir_changed trimmed (some g) w
  react other_entry disk w = watched_dir_changed trimmed disk w

  unfoldable pub react_each : List Change → Option File → FileWatcher → FileWatcher
  react_each [] disk w = w
  react_each (ch ∷ chs) disk w = react_each chs (after ch disk) (react ch disk w)

  abbrev Reacts : Change → Option File → FileWatcher → FileWatcher → Type 0
  Reacts ch disk w x =
      Tracks (after ch disk) x
      × (x.emitted ≡ w.emitted ++ map_lines (shown trimmed) (lines (text ch)))

  is_newer :
      (f : File) (w : FileWatcher)
      → w.inode ≡ f.inode
      → is_file_newer (some (record f { bytes = [] })) w ≡ ltb 0 w.curr_size
  is_newer f w i = ground (arith, i)

  abbrev emptied_file : File → File
  emptied_file f = record f { bytes = [] }

  emptied_scan :
      (f : File) (w : FileWatcher)
      → w.inode ≡ f.inode
      → watched_file_changed trimmed (some (emptied_file f)) w
        ≡ scan trimmed (some (emptied_file f)) (record w { curr_size = 0 })
  unfolding watched_file_changed
  emptied_scan f w i = elim (Bool-cases (ltb 0 w.curr_size)) [
    | inl some_read ↦ rw (is_newer f w i, some_read) refl
    | inr none_read ↦
        let at_start : w.curr_size ≡ 0 = ground (arith, none_read) in
        rw (is_newer f w i, none_read)
          (ap (λ (n : ℕ). scan trimmed (some (emptied_file f)) (record w { curr_size = n }))
            at_start)
  ]

  emptied_lem :
      (f : File) (w : FileWatcher)
      → Tracks (some f) w
      → Reacts emptied (some f) w (watched_file_changed trimmed (some (record f { bytes = [] })) w)
  emptied_lem f w (opens, watched, i, e) =
      rw
        (
          emptied_scan f w i,
          scan-grown trimmed (emptied_file f) [] (record w { curr_size = 0 }) opens refl
              (omega arith) tt (omega arith),
        )
        ((opens, watched, i, refl), refl)

  created_lem :
      (g : File) (w : FileWatcher)
      → (g.openable ≡ true) × IsText [] g.bytes
      → w.watching ≡ false
      → Reacts (created g) none w (watched_dir_changed trimmed (some g) w)
  unfolding watched_dir_changed
  created_lem g w (opens, (complete, fits, speak, small)) unwatched =
      rw
        (
          unwatched,
          scan-grown trimmed (record g { bytes = [] }) g.bytes
              (record w { watching = true; curr_size = 0; inode = g.inode }) opens refl fits speak
              small,
        )
        ((opens, refl, refl, refl), refl)

  removed_lem :
      (w : FileWatcher)
      → w.watching ≡ false
      → Reacts removed none w (watched_file_changed trimmed none w)
  unfolding watched_file_changed scan
  removed_lem w unwatched = elim (Bool-cases (is_file_newer none w)) [
    | inl newer ↦ rw newer (unwatched, sym (append-nil w.emitted))
    | inr same ↦ rw same (unwatched, sym (append-nil w.emitted))
  ]

  react_lem :
      (ch : Change) (disk : Option File) (w : FileWatcher)
      → Fits ch disk
      → Tracks disk w
      → Reacts ch disk w (react ch disk w)
  unfolding react watched_dir_changed
  react_lem (appended new) none w fits v = absurd fits
  react_lem (appended new) (some f) w (complete, fits, speak, small) (opens, watched, i, e) =
      rw (change_lem trimmed f new w opens i e fits speak small) ((opens, watched, i, refl), refl)
  react_lem emptied none w fits v = absurd fits
  react_lem emptied (some f) w fits v = emptied_lem f w v
  react_lem removed none w fits v = absurd fits
  react_lem removed (some f) w fits v = removed_lem (record w { watching = false }) refl
  react_lem (created g) none w fits v = created_lem g w fits v
  react_lem (created g) (some f) w fits v = absurd fits
  react_lem other_entry none w fits v = (v, sym (append-nil w.emitted))
  react_lem other_entry (some f) w fits (opens, watched, i, e) =
      rw watched ((opens, refl, i, e), sym (append-nil w.emitted))

  react_each_lem :
      (chs : List Change) (disk : Option File) (w : FileWatcher)
      → AllFit chs disk
      → Tracks disk w
      → (react_each chs disk w).emitted ≡ w.emitted ++ map_lines (shown trimmed) (lines (texts chs))
  unfolding react_each
  react_each_lem [] disk w fits v = sym (append-nil w.emitted)
  react_each_lem (ch ∷ chs) disk w (here, fits) v =
      let x = react ch disk w in
      let (still, emitted) = react_lem ch disk w here v in
      react_each_lem chs (after ch disk) x fits still
      ∙ ap (λ (ls : List QString). ls ++ map_lines (shown trimmed) (lines (texts chs))) emitted
      ∙ append_assoc w.emitted _ _
      ∙ ap (λ (ls : List QString). w.emitted ++ ls)
          (sym (map_lines_append (shown trimmed) (lines (text ch)) (lines (texts chs)))
            ∙ ap (map_lines (shown trimmed))
                (sym (lines_append (text ch) (texts chs) (Fits-IsComplete ch disk here))))

  -- Let a file be there, readable, and below 2^32 bytes. Then the constructor succeeds, and from
  -- then on the watcher follows the name, whichever file it stands for: whatever is appended, and
  -- when the file is emptied, or is removed and another is created, and other names of the
  -- directory change, with the slots run after each, it has emitted the lines of all that was
  -- written, each up to its first NUL, in order and once, and none that was there before. Each text
  -- ends with a newline or is empty, its first line is no longer than 1024 bytes, no line starts
  -- with NUL, and a file can be opened and stays below 2^32 bytes.
  pub open_watcher-react_each :
      (f : File) (chs : List Change)
      → f.openable ≡ true
      → length f.bytes < 2 ^ 32
      → AllFit chs (some f)
      → (w : FileWatcher) × (open_watcher true (some f) ≡ opened w)
        × ((react_each chs (some f) w).emitted ≡ map_lines (shown trimmed) (lines (texts chs)))
  unfolding open_watcher
  open_watcher-react_each f chs opens small fits =
      (_, refl, react_each_lem chs (some f) _ fits (opens, refl, refl, omega (arith, small)))
