-- ===== src/QuotaBeacon/Capture.antt =====
-- What the expression of quotabeacon.cpp captures, against a description of its matches.
use mathlib.Core.List.{append_cancel_left}
use wifigateway_server.Base.{
  ℕ, ◌≤◌, ◌≡◌, ◌≢◌, ◌⊎◌, inl, inr, sym, ap, ◌∙◌, Bool, Option, none, some, [], ◌++◌, Option-cases,
}
use wifigateway_server.Qt.Text.{QString}
use wifigateway_server.FileWatcher.{length}
use wifigateway_server.QuotaBeacon.Pattern.{
  gw_quota_prefix, source_mark, first, after_text, address, source_address, cap, captured,
}
use wifigateway_server.QuotaBeacon.Search.{
  Leftmost, first-none, first-Leftmost, after_text_lem, after_text-parts, IsAddress, address_text,
  address-parts,
}

-- The parts of a text, when one is taken apart further.
further : (s a r t : QString) → s ≡ a ++ r → r ≡ t → s ≡ a ++ t
further s a r t p q = p ∙ ap (λ (u : QString). a ++ u) q

-- A text is taken apart in one way after a given start and a given literal.
same_rest : (s a b p r t : QString) → s ≡ a ++ (p ++ r) → s ≡ b ++ (p ++ t) → b ≡ a → r ≡ t
same_rest s a b p r t left right same =
    append_cancel_left p r t
      (append_cancel_left a _ _ (sym left ∙ right ∙ ap (λ (u : QString). u ++ (p ++ t)) same))

module _ (is_space : ℕ → Bool) where
  -- A way to read a line by the expression: the prefix, later "SRC=", and an address after that.
  pub record Match (line : QString) : Type 0 where
    pub before : QString
    pub between : QString
    pub ip : QString
    pub after : QString
    pub parts : line ≡ before ++ (gw_quota_prefix ++ (between ++ (source_mark ++ (ip ++ after))))
    pub spaced : IsAddress is_space ip after

  abbrev marked : QString → Option QString
  marked = after_text source_mark (address is_space)

  abbrev prefixed : QString → Option QString
  prefixed = after_text gw_quota_prefix (source_address is_space)

  marked_text :
      (ip after : QString)
      → IsAddress is_space ip after
      → marked (source_mark ++ (ip ++ after)) ≡ some ip
  marked_text ip after v =
      after_text_lem (address is_space) source_mark (ip ++ after) ∙ address_text is_space ip after v

  marked_found :
      (ip after : QString)
      → IsAddress is_space ip after
      → marked (source_mark ++ (ip ++ after)) ≢ none
  marked_found ip after v e =
      let impossible : some ip ≡ none = sym (marked_text ip after v) ∙ e in absurd cc

  -- A match is found, where it is or further left.
  prefixed_found :
      (between ip after : QString)
      → IsAddress is_space ip after
      → prefixed (gw_quota_prefix ++ (between ++ (source_mark ++ (ip ++ after)))) ≢ none
  prefixed_found between ip after v e =
      let rest = source_mark ++ (ip ++ after) in
      marked_found ip after v (
        first-none marked between rest
          (sym (after_text_lem (source_address is_space) gw_quota_prefix (between ++ rest)) ∙ e))

  -- Either no reading of the line matches the expression, and nothing is captured; or one does, its
  -- address is what is captured, no other match has its prefix further left, and none with the
  -- prefix there has its "SRC=" further left.
  pub capture_lem :
      (line : QString)
      → ((captured is_space line ≡ []) × (Match line → ⊥))
        ⊎ ((m : Match line) × (captured is_space line ≡ m.ip)
            × ((n : Match line)
                → (length m.before ≤ length n.before)
                  × (n.before ≡ m.before → length m.between ≤ length n.between)))
  unfolding captured
  capture_lem line = elim (Option-cases (first prefixed line)) [
    | inl nothing ↦ inl (
      ap cap nothing,
      λ n.
          prefixed_found n.between n.ip n.after n.spaced
            (first-none prefixed n.before _ (sym (ap (first prefixed) n.parts) ∙ nothing)),
    )
    | inr (ip, e) ↦
        let l : Leftmost prefixed line ip = first-Leftmost prefixed line ip e in
        let (r, at_prefix, e') =
          after_text-parts (source_address is_space) gw_quota_prefix l.rest ip l.found in
        let k : Leftmost marked r ip = first-Leftmost marked r ip e' in
        let (s, at_mark, e'') = after_text-parts (address is_space) source_mark k.rest ip k.found in
        let (after, at_ip, spaced) = address-parts is_space s ip e'' in
        let m : Match line = record {
          before = l.skipped;
          between = k.skipped;
          ip = ip;
          after = after;
          parts = further line l.skipped l.rest _ l.parts (
              further l.rest gw_quota_prefix r _ at_prefix (
                further r k.skipped k.rest _ k.parts
                  (further k.rest source_mark s _ at_mark at_ip)));
          spaced = spaced;
        } in
        inr (
          m,
          ap cap e,
          λ n. (
            l.least n.before _ n.parts (prefixed_found n.between n.ip n.after n.spaced),
            λ same.
                k.least n.between (source_mark ++ (n.ip ++ n.after))
                  (same_rest line l.skipped n.before gw_quota_prefix r _
                    (further line l.skipped l.rest _ l.parts at_prefix) n.parts same)
                  (marked_found n.ip n.after n.spaced),
          ),
        )
  ]
