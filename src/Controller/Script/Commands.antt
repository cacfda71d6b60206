-- ===== src/Controller/Script/Commands.antt =====
-- Which script and arguments a command line is for.
use mathlib.Core.List.{append_assoc}
use wifigateway_server.Base.{
  ℕ, zero, suc, ◌≡◌, ◌≢◌, refl, sym, ap, ◌∙◌, true, false, [], ◌∷◌, ◌++◌, arith,
}
use wifigateway_server.Base.Int.{ℤ}
use wifigateway_server.Qt.Text.{QString, codes, has_space}
use wifigateway_server.Qt.Number.{
  number, number_int, read_from, read-number, has_space-number, has_space-number_int,
}
use wifigateway_server.Controller.Script.{add_host_command, remove_host_command, clean_up_command}

has_space-append : (s t : QString) → has_space (s ++ (b' ' ∷ t)) ≡ true
has_space-append [] t = refl
has_space-append (c ∷ s) t = ground (arith, has_space-append s t)

tail_eq : {c d : ℕ} {s t : QString} → ◌≡◌ {A = QString} (c ∷ s) (d ∷ t) → s ≡ t
tail_eq e = cc

append_cancel : (s t u : QString) → s ++ t ≡ s ++ u → t ≡ u
append_cancel [] t u e = e
append_cancel (c ∷ s) t u e = append_cancel s t u (tail_eq e)

-- A text is cut at its last space in one way.
split_unique :
    (x y u v : QString)
    → has_space u ≡ false
    → has_space v ≡ false
    → x ++ (b' ' ∷ u) ≡ y ++ (b' ' ∷ v)
    → (x ≡ y) × (u ≡ v)
split_unique [] [] u v nu nv e = (refl, cc)
split_unique [] (d ∷ y) u v nu nv e =
    absurd (ground (arith, has_space-append y v, ap has_space (tail_eq e)))
split_unique (c ∷ x) [] u v nu nv e =
    absurd (ground (arith, has_space-append x u, ap has_space (tail_eq e)))
split_unique (c ∷ x) (d ∷ y) u v nu nv e =
    let (p, q) = split_unique x y u v nu nv (tail_eq e) in (cc, q)

number-injective : (m n : ℕ) → number m ≡ number n → m ≡ n
number-injective m n e = sym (read-number m) ∙ ap (read_from 0) e ∙ read-number n

-- Two equal command lines of gw_add_host.sh, of any two IPs, are for the same IP, with the same
-- bandwidth and with the same text for the quota.
pub add_host_command-injective :
    (dir ip j : QString) (b d : ℕ) (q r : ℤ)
    → add_host_command dir ip b q ≡ add_host_command dir j d r
    → (ip ≡ j) × (b ≡ d) × (number_int q ≡ number_int r)
unfolding add_host_command
add_host_command-injective dir ip j b d q r e =
    let f =
      append_cancel (codes "/wifigateway-script/gw_add_host.sh ") _ _ (append_cancel dir _ _ e) in
    let (front, quota) =
      split_unique (ip ++ (b' ' ∷ number b)) (j ++ (b' ' ∷ number d)) (number_int q) (number_int r)
        (has_space-number_int q) (has_space-number_int r)
        (append_assoc ip _ _ ∙ f ∙ sym (append_assoc j _ _)) in
    let (same, bandwidth) =
      split_unique ip j (number b) (number d) (has_space-number b) (has_space-number d) front in
    (same, number-injective b d bandwidth, quota)

pub remove_host_command-injective :
    (dir ip j : QString) → remove_host_command dir ip ≡ remove_host_command dir j → ip ≡ j
unfolding remove_host_command
remove_host_command-injective dir ip j e =
    append_cancel (codes "/wifigateway-script/gw_remove_host.sh ") _ _ (append_cancel dir _ _ e)

abbrev unit_at : ℕ → QString → ℕ
unit_at n [] = 0
unit_at zero (c ∷ s) = c
unit_at (suc n) (c ∷ s) = unit_at n s

-- The three scripts are told apart by the unit after "/wifigateway-script/gw_".
module _ (dir ip j : QString) (b : ℕ) (q : ℤ) where
  pub add-ne-remove : add_host_command dir ip b q ≢ remove_host_command dir j
  unfolding add_host_command remove_host_command
  add-ne-remove e =
      let f : ◌≡◌ {A = ℕ} 97 114 = ap (unit_at 23) (append_cancel dir _ _ e) in
      absurd (omega (arith, f))

  pub add-ne-clean : add_host_command dir ip b q ≢ clean_up_command dir
  unfolding add_host_command clean_up_command
  add-ne-clean e =
      let f : ◌≡◌ {A = ℕ} 97 99 = ap (unit_at 23) (append_cancel dir _ _ e) in
      absurd (omega (arith, f))

  pub remove-ne-clean : remove_host_command dir ip ≢ clean_up_command dir
  unfolding remove_host_command clean_up_command
  remove-ne-clean e =
      let f : ◌≡◌ {A = ℕ} 114 99 = ap (unit_at 23) (append_cancel dir _ _ e) in
      absurd (omega (arith, f))
