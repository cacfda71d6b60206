-- ===== src/FileWatcher/Following.antt =====
-- The slots of FileWatcher on a file that grows, and on one that is replaced.
use mathlib.Core.List.{append-nil}
use wifigateway_server.Base.{
  ◌-◌, sym, Bool-cases, inl, inr, if◌then◌else◌, ℕ, ◌+◌, ◌%◌, ◌^◌, ◌<◌, ◌≡◌, ◌≢◌, refl, ap, ◌∙◌,
  true, false, some, List, [], ◌∷◌, ◌++◌, arith,
}
use wifigateway_server.Qt.Text.{QString}
use wifigateway_server.FileWatcher.{
  File, FileWatcher, shown, scan_all, read_lines, length, drop, map_lines, scan_lines,
  is_file_newer, scan, watched_file_changed, watched_dir_changed,
}
use wifigateway_server.FileWatcher.Lines.{
  lines, FirstFits, AllSpeak, scan_lines_lem, scan_rest_lem, length_append,
}

drop_append : (s t : QString) → drop (length s) (s ++ t) ≡ t
drop_append [] t = refl
drop_append (b ∷ s) t = drop_append s t

module _ (trimmed : QString → QString) where
  pub map_lines_append :
      (ls ms : List QString)
      → map_lines trimmed (ls ++ ms) ≡ map_lines trimmed ls ++ map_lines trimmed ms
  map_lines_append [] ms = refl
  map_lines_append (l ∷ ls) ms =
      ap (λ (rest : List QString). trimmed l ∷ rest) (map_lines_append ls ms)

  -- What can be read of a file.
  abbrev pub contents : File → QString
  contents f = if f.openable then f.bytes else []

  abbrev pub grown : File → QString → File
  grown f new = record f { bytes = f.bytes ++ new }

  -- A scan from the end of what was there, of a text that has been appended.
  pub scan-grown :
      (f : File) (new : QString) (w : FileWatcher)
      → f.openable ≡ true
      → w.curr_size ≡ length f.bytes
      → FirstFits new
      → AllSpeak (lines new)
      → length (f.bytes ++ new) < 2 ^ 32
      → scan trimmed (some (grown f new)) w ≡ record w {
        emitted = w.emitted ++ map_lines (shown trimmed) (lines new);
        curr_size = length (f.bytes ++ new);
      }
  unfolding scan
  scan-grown f new w opens e fits speak small =
      let rest : drop w.curr_size (f.bytes ++ new) ≡ new =
        ap (λ n. drop n (f.bytes ++ new)) e ∙ drop_append f.bytes new in
      let size : (w.curr_size + (length new - 0)) % 2 ^ 32 ≡ length (f.bytes ++ new) =
        omega (arith, e, small, length_append f.bytes new) in
      rw (opens, rest, scan_lines_lem new fits speak, scan_rest_lem new fits speak)
        (ap
          (λ (n : ℕ). record w {
            emitted = w.emitted ++ map_lines (shown trimmed) (lines new);
            curr_size = n;
          })
          size)

  pub not_newer :
      (f : File) (new : QString) (w : FileWatcher)
      → w.inode ≡ f.inode
      → w.curr_size ≡ length f.bytes
      → is_file_newer (some (grown f new)) w ≡ false
  not_newer f new w i e = ground (arith, length_append f.bytes new)

  replaced_newer :
      (f : File) (w : FileWatcher) → f.inode ≢ w.inode → is_file_newer (some f) w ≡ true
  replaced_newer f w other = ground arith

  -- A scan from the start of a file.
  scan_whole :
      (f : File) (w : FileWatcher)
      → (scan trimmed (some f) (record w { curr_size = 0 })).emitted
        ≡ w.emitted ++ map_lines (shown trimmed) (scan_lines (contents f))
  unfolding scan scan_lines scan_all read_lines
  scan_whole f w = elim (Bool-cases f.openable) [
    | inl opens ↦ rw opens refl
    | inr closed ↦ rw closed (sym (append-nil w.emitted))
  ]

  scan_watching : (f : File) (w : FileWatcher) → (scan trimmed (some f) w).watching ≡ w.watching
  unfolding scan
  scan_watching f w = ground arith

  found_again :
      (f : File) (w : FileWatcher)
      → w.watching ≡ false
      → watched_dir_changed trimmed (some f) w
        ≡ scan trimmed (some f) (record w { watching = true; curr_size = 0; inode = f.inode })
  unfolding watched_dir_changed
  found_again f w unwatched = ground (arith, unwatched)

  replaced_again :
      (f : File) (w : FileWatcher)
      → f.inode ≢ w.inode
      → watched_file_changed trimmed (some f) w ≡ scan trimmed (some f) (record w { curr_size = 0 })
  unfolding watched_file_changed
  replaced_again f w other = rw (replaced_newer f w other) refl

  -- A file that has been replaced while its name was not watched is delivered twice: every line
  -- that the slot for the file emits, the slot for the directory emits again.
  pub replaced_twice :
      (f : File) (w : FileWatcher)
      → w.watching ≡ false
      → f.inode ≢ w.inode
      → (watched_dir_changed trimmed (some f) (watched_file_changed trimmed (some f) w)).emitted
        ≡ (w.emitted ++ map_lines (shown trimmed) (scan_lines (contents f)))
          ++ map_lines (shown trimmed) (scan_lines (contents f))
  replaced_twice f w unwatched other =
      let x = scan trimmed (some f) (record w { curr_size = 0 }) in
      ap (λ (y : FileWatcher). (watched_dir_changed trimmed (some f) y).emitted)
        (replaced_again f w other)
      ∙ ap (λ (y : FileWatcher). y.emitted)
          (found_again f x (scan_watching f (record w { curr_size = 0 }) ∙ unwatched))
      ∙ scan_whole f (record x { watching = true; inode = f.inode })
      ∙ ap (λ (ls : List QString). ls ++ map_lines (shown trimmed) (scan_lines (contents f)))
          (scan_whole f w)
