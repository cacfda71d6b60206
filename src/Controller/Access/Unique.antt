-- ===== src/Controller/Access/Unique.antt =====
-- What one log of commands says of one host.
use mathlib.Core.Path.{subst}
use wifigateway_server.Base.{
  ℕ, ◌≡◌, ◌≢◌, refl, sym, ◌∙◌, ◌⊎◌, inl, inr, Bool, true, false, List, [], ◌∷◌,
}
use wifigateway_server.Base.Int.{ℤ, pos, is_zero}
use wifigateway_server.Qt.Text.{QString}
use wifigateway_server.Controller.Script.{add_host_command, remove_host_command, clean_up_command}
use wifigateway_server.Controller.Script.Commands.{
  add_host_command-injective, remove_host_command-injective, add-ne-remove, add-ne-clean,
  remove-ne-clean,
}
use wifigateway_server.Controller.Machine.{Answer}
use wifigateway_server.Controller.Access.{
  LastAsked, at_first, failed, added, removed, other_added, other_removed, cleaned_up,
}

module _ (dir : QString) (answer : Answer) (ip : QString) where
  -- The commands that are about `ip`, with what they make of its access.
  abbrev About : QString → Bool → Type 0
  About command b =
      ((bandwidth : ℕ) × (quota : ℤ) × (command ≡ add_host_command dir ip bandwidth quota)
        × (b ≡ true))
      ⊎ ((command ≡ remove_host_command dir ip) × (b ≡ false))

  -- The commands that are about another host.
  abbrev Elsewhere : QString → Type 0
  Elsewhere command =
      ((j : QString) × (bandwidth : ℕ) × (quota : ℤ) × (ip ≢ j)
        × (command ≡ add_host_command dir j bandwidth quota))
      ⊎ ((j : QString) × (ip ≢ j) × (command ≡ remove_host_command dir j))

  -- What the newest command of a log has done.
  abbrev Last : QString → List QString → Bool → Type 0
  Last command log b =
      ((command ≡ clean_up_command dir) × (b ≡ false))
      ⊎ ((is_zero (answer command log) ≡ true) × About command b)
      ⊎ (((is_zero (answer command log) ≡ false) × (command ≢ clean_up_command dir)
            ⊎ Elsewhere command)
          × LastAsked dir answer ip b log)

  same_Last :
      (b : Bool) (c command : QString) (m log : List QString)
      → ◌≡◌ {A = List QString} (c ∷ m) (command ∷ log)
      → Last c m b
      → Last command log b
  same_Last b c command m log e x =
      let head : c ≡ command = cc in
      let tail : m ≡ log = cc in subst (λ k. Last k log b) head (subst (λ l. Last c l b) tail x)

  last :
      {b : Bool} {l : List QString} (command : QString) (log : List QString)
      → LastAsked dir answer ip b l
      → l ≡ command ∷ log
      → Last command log b
  last command log at_first e = absurd cc
  last command log (failed c b m bad n a) e =
      same_Last b c command m log e (inr (inr (inl (bad, n), a)))
  last command log (added bw q b m ok a) e =
      same_Last true _ command m log e (inr (inl (ok, inl (bw, q, refl, refl))))
  last command log (removed b m ok a) e =
      same_Last false _ command m log e (inr (inl (ok, inr (refl, refl))))
  last command log (other_added j bw q b m n a) e =
      same_Last b _ command m log e (inr (inr (inr (inl (j, bw, q, n, refl)), a)))
  last command log (other_removed j b m n a) e =
      same_Last b _ command m log e (inr (inr (inr (inr (j, n, refl)), a)))
  last command log (cleaned_up b m a) e = same_Last false _ command m log e (inl (refl, refl))

  About-unique : (command : QString) (b d : Bool) → About command b → About command d → b ≡ d
  About-unique c b d (inl (bw, q, e, x)) (inl (_, _, _, y)) = x ∙ sym y
  About-unique c b d (inl (bw, q, e, x)) (inr (f, y)) =
      absurd (add-ne-remove dir ip ip bw q (sym e ∙ f))
  About-unique c b d (inr (e, x)) (inl (bw, q, f, y)) =
      absurd (add-ne-remove dir ip ip bw q (sym f ∙ e))
  About-unique c b d (inr (e, x)) (inr (f, y)) = x ∙ sym y

  About-Elsewhere : (command : QString) (b : Bool) → About command b → ¬ Elsewhere command
  About-Elsewhere c b (inl (bw, q, e, _)) (inl (j, bw', q', n, f)) =
      n ((add_host_command-injective dir ip j bw bw' q q' (sym e ∙ f)).0)
  About-Elsewhere c b (inl (bw, q, e, _)) (inr (j, n, f)) = add-ne-remove dir ip j bw q (sym e ∙ f)
  About-Elsewhere c b (inr (e, _)) (inl (j, bw, q, n, f)) = add-ne-remove dir j ip bw q (sym f ∙ e)
  About-Elsewhere c b (inr (e, _)) (inr (j, n, f)) =
      n (remove_host_command-injective dir ip j (sym e ∙ f))

  About-no_clean : (command : QString) (b : Bool) → About command b → command ≢ clean_up_command dir
  About-no_clean c b (inl (bw, q, e, _)) f = add-ne-clean dir ip ip bw q (sym e ∙ f)
  About-no_clean c b (inr (e, _)) f = remove-ne-clean dir ip ip 0 (pos 0) (sym e ∙ f)

  Elsewhere-no_clean : (command : QString) → Elsewhere command → command ≢ clean_up_command dir
  Elsewhere-no_clean c (inl (j, bw, q, _, e)) f = add-ne-clean dir j j bw q (sym e ∙ f)
  Elsewhere-no_clean c (inr (j, _, e)) f = remove-ne-clean dir j j 0 (pos 0) (sym e ∙ f)

  -- A clean-up decides for every IP, and no other reading of the log is open.
  clean_false :
      (command : QString) (log : List QString) (b : Bool)
      → command ≡ clean_up_command dir
      → Last command log b
      → b ≡ false
  clean_false c log b e (inl (_, x)) = x
  clean_false c log b e (inr (inl (_, x))) = absurd (About-no_clean c b x e)
  clean_false c log b e (inr (inr (inl (_, n), _))) = absurd (n e)
  clean_false c log b e (inr (inr (inr x, _))) = absurd (Elsewhere-no_clean c x e)

  first_false : {b : Bool} {l : List QString} → LastAsked dir answer ip b l → l ≡ [] → b ≡ false
  first_false at_first e = refl
  first_false (failed c b m bad n a) e = absurd cc
  first_false (added bw q b m ok a) e = absurd cc
  first_false (removed b m ok a) e = refl
  first_false (other_added j bw q b m n a) e = absurd cc
  first_false (other_removed j b m n a) e = absurd cc
  first_false (cleaned_up b m a) e = refl

  -- Either both logs end with a command about the host, or neither does.
  Last-unique :
      (command : QString) (log : List QString) (b d : Bool)
      → (LastAsked dir answer ip b log → LastAsked dir answer ip d log → b ≡ d)
      → Last command log b
      → Last command log d
      → b ≡ d
  Last-unique c log b d same (inl (e, x)) y = x ∙ sym (clean_false c log d e y)
  Last-unique c log b d same (inr x) (inl (e, y)) = clean_false c log b e (inr x) ∙ sym y
  Last-unique c log b d same (inr (inl (ok, x))) (inr (inl (_, y))) = About-unique c b d x y
  Last-unique c log b d same (inr (inl (ok, x))) (inr (inr (inl (bad, _), _))) = absurd cc
  Last-unique c log b d same (inr (inl (ok, x))) (inr (inr (inr y, _))) =
      absurd (About-Elsewhere c b x y)
  Last-unique c log b d same (inr (inr (inl (bad, _), _))) (inr (inl (ok, y))) = absurd cc
  Last-unique c log b d same (inr (inr (inr x, _))) (inr (inl (ok, y))) =
      absurd (About-Elsewhere c d y x)
  Last-unique c log b d same (inr (inr (_, x))) (inr (inr (_, y))) = same x y

  -- One log of commands leaves one answer.
  pub LastAsked-unique :
      (b d : Bool) (log : List QString)
      → LastAsked dir answer ip b log
      → LastAsked dir answer ip d log
      → b ≡ d
  LastAsked-unique b d [] x y = first_false x refl ∙ sym (first_false y refl)
  LastAsked-unique b d (c ∷ log) x y =
      Last-unique c log b d (LastAsked-unique b d log) (last c log x refl) (last c log y refl)
