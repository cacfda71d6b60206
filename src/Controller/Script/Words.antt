-- ===== src/Controller/Script/Words.antt =====
-- The words of a command line: the script and its arguments.
use mathlib.Core.List.{append_assoc}
use wifigateway_server.Base.{
  ℕ, ◌≡◌, refl, sym, ap, ◌∙◌, false, List, [], ◌∷◌, ◌++◌, arith, ◌==◌, if◌then◌else◌,
}
use wifigateway_server.Base.Int.{ℤ}
use wifigateway_server.Qt.Text.{QString, codes, is_empty, has_space}
use wifigateway_server.Qt.Number.{
  number, number_int, number_some, number_int_some, has_space-number, has_space-number_int,
}
use wifigateway_server.Controller.Script.{add_host_command, remove_host_command, clean_up_command}

abbrev keep : QString → List QString → List QString
keep [] ws = ws
keep (c ∷ w) ws = (c ∷ w) ∷ ws

-- The text before the first space, and the words after it.
abbrev split : QString → QString × List QString
split [] = ([], [])
split (c ∷ s) = let (w, ws) = split s in if c == b' ' then ([], keep w ws) else (c ∷ w, ws)

-- The parts between the spaces of a text, less the empty ones.
abbrev pub words : QString → List QString
words s = let (w, ws) = split s in keep w ws

split_append : (u t : QString) → has_space u ≡ false → split (u ++ (b' ' ∷ t)) ≡ (u, words t)
split_append [] t e = refl
split_append (c ∷ u) t e = ground (arith, split_append u t)

split_one : (u : QString) → has_space u ≡ false → split u ≡ (u, [])
split_one [] e = refl
split_one (c ∷ u) e = ground (arith, split_one u)

keep_some : (w : QString) (ws : List QString) → is_empty w ≡ false → keep w ws ≡ w ∷ ws
keep_some [] ws e = absurd cc
keep_some (c ∷ w) ws e = refl

words_append :
    (u t : QString)
    → has_space u ≡ false
    → is_empty u ≡ false
    → words (u ++ (b' ' ∷ t)) ≡ u ∷ words t
words_append u t e n = rw (split_append u t e) (keep_some u (words t) n)

words_one : (u : QString) → has_space u ≡ false → is_empty u ≡ false → words u ≡ u ∷ []
words_one u e n = rw (split_one u e) (keep_some u [] n)

has_space_append :
    (s t : QString) → has_space s ≡ false → has_space t ≡ false → has_space (s ++ t) ≡ false
has_space_append [] t e f = f
has_space_append (c ∷ s) t e f = ground (arith, has_space_append s t)

is_empty_append : (s t : QString) → is_empty t ≡ false → is_empty (s ++ t) ≡ false
is_empty_append [] t e = e
is_empty_append (c ∷ s) t e = refl

-- Let the directory of the scripts have no space in its name, and the IP have none and not be
-- empty. Split at its spaces, the command line of gw_add_host.sh is the path of that script, the
-- IP, the bandwidth and the quota, in this order, that of gw_remove_host.sh is its path and the IP,
-- and that of gw_clean_up.sh is its path alone.
pub commands_lem :
    (dir ip : QString) (bandwidth : ℕ) (quota : ℤ)
    → has_space dir ≡ false
    → has_space ip ≡ false
    → is_empty ip ≡ false
    → (words (add_host_command dir ip bandwidth quota)
        ≡ (dir ++ codes "/wifigateway-script/gw_add_host.sh")
          ∷ ip
          ∷ number bandwidth
          ∷ number_int quota
          ∷ [])
      × (words (remove_host_command dir ip)
          ≡ (dir ++ codes "/wifigateway-script/gw_remove_host.sh") ∷ ip ∷ [])
      × (words (clean_up_command dir) ≡ (dir ++ codes "/wifigateway-script/gw_clean_up.sh") ∷ [])
unfolding add_host_command remove_host_command clean_up_command
commands_lem dir ip bandwidth quota spaceless one_word some_ip =
    let add = dir ++ codes "/wifigateway-script/gw_add_host.sh" in
    let remove = dir ++ codes "/wifigateway-script/gw_remove_host.sh" in
    let clean = dir ++ codes "/wifigateway-script/gw_clean_up.sh" in
    (
      ap words (sym (append_assoc dir _ _))
          ∙ words_append add _ (has_space_append dir _ spaceless refl) (is_empty_append dir _ refl)
          ∙ ap (λ (ws : List QString). add ∷ ws)
              (words_append ip _ one_word some_ip
                ∙ ap (λ (ws : List QString). ip ∷ ws)
                    (words_append (number bandwidth) _ (has_space-number bandwidth)
                        (number_some bandwidth)
                      ∙ ap (λ (ws : List QString). number bandwidth ∷ ws)
                          (words_one (number_int quota) (has_space-number_int quota)
                            (number_int_some quota)))),
      ap words (sym (append_assoc dir _ _))
          ∙ words_append remove _ (has_space_append dir _ spaceless refl)
              (is_empty_append dir _ refl)
          ∙ ap (λ (ws : List QString). remove ∷ ws) (words_one ip one_word some_ip),
      words_one clean (has_space_append dir _ spaceless refl) (is_empty_append dir _ refl),
    )
