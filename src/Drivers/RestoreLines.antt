-- ===== src/Drivers/RestoreLines.antt =====
-- The input of iptables-restore, line by line: no value breaks out of its line.
use netflix_pbrd.Base.{
  ℕ, ◌≡◌, ◌==◌, refl, ap, sym, ◌∙◌, true, false, Bool, not, ◌&&◌, and-eq-true, quoted, Error, ok,
  All, List, [], ◌∷◌, ◌++◌, append_assoc, map, Text, codes, arith,
}
use netflix_pbrd.Text.{contains_byte}
use netflix_pbrd.Text.Words.{split_lines, text_of}
use netflix_pbrd.Text.Ink.{split_lines-line, contains_byte-IsInk}
use netflix_pbrd.Networks.Merging.{IsForm, IsNetworkSet}
use netflix_pbrd.Networks.Saved.{IsForm-IsInk}
use netflix_pbrd.Config.{ApplyConfig}
use netflix_pbrd.Config.Load.{
  Parsers, is_set, refuse, all_bytes, is_word_byte, is_hex_byte, chain_pattern, hex_pattern,
  checks_of_apply, check_apply,
}
use netflix_pbrd.Config.Loaded.{first_error-All}
use netflix_pbrd.Drivers.Commands.{or_default}
use netflix_pbrd.Drivers.Edge.{edge_restore, edge_rule, with_edge_defaults}

abbrev IsOneLine : Text → Type 0
IsOneLine s = contains_byte s 10 ≡ false

append-IsOneLine : (s t : Text) → IsOneLine s → IsOneLine t → IsOneLine (s ++ t)
unfolding contains_byte
append-IsOneLine [] t hs ht = ht
append-IsOneLine (c ∷ s) t hs ht = ground (arith, append-IsOneLine s t)

form-IsOneLine : (s : Text) → IsForm s → IsOneLine s
form-IsOneLine s h = contains_byte-IsInk s 10 (omega arith) (IsForm-IsInk s h)

-- The rule of one network, without the end of its line.
abbrev pub edge_line : ApplyConfig → Text → Text
edge_line c network =
    codes "-A "
    ++ (c.chain
        ++ (codes " -d "
            ++ (network ++ (codes " -j MARK --set-xmark " ++ (c.mark ++ (codes "/" ++ c.mask))))))

edge_rule-edge_line :
    (c : ApplyConfig) (network rest : Text)
    → edge_rule c network ++ rest ≡ edge_line c network ++ (10 ∷ rest)
edge_rule-edge_line c network rest = simp append_assoc

module _ (c : ApplyConfig) (chain_line : IsOneLine c.chain) (mark_line : IsOneLine c.mark)
    (mask_line : IsOneLine c.mask) where
  edge_line-IsOneLine : (network : Text) → IsOneLine network → IsOneLine (edge_line c network)
  edge_line-IsOneLine network h = append-IsOneLine (codes "-A ") _ (unfold contains_byte in refl) (
      append-IsOneLine c.chain _ chain_line (
        append-IsOneLine (codes " -d ") _ (unfold contains_byte in refl) (
          append-IsOneLine network _ h (
            append-IsOneLine (codes " -j MARK --set-xmark ") _ (unfold contains_byte in refl) (
              append-IsOneLine c.mark _ mark_line
                (append-IsOneLine (codes "/") c.mask (unfold contains_byte in refl) mask_line))))))

  rules-lines :
      (nets : List Text) (rest : Text)
      → All IsForm nets
      → split_lines (text_of (map (edge_rule c) nets) ++ rest)
        ≡ map (edge_line c) nets ++ split_lines rest
  rules-lines [] rest h = refl
  rules-lines (network ∷ nets) rest (form, forms) =
      ap split_lines (append_assoc (edge_rule c network) (text_of (map (edge_rule c) nets)) rest)
      ∙ ap split_lines (edge_rule-edge_line c network (text_of (map (edge_rule c) nets) ++ rest))
      ∙ split_lines-line (edge_line c network) (text_of (map (edge_rule c) nets) ++ rest)
          (edge_line-IsOneLine network (form-IsOneLine network form))
      ∙ ap (λ lines. edge_line c network ∷ lines) (rules-lines nets rest forms)

  edge_restore-split_lines :
      (nets : List Text)
      → IsNetworkSet nets
      → split_lines (edge_restore c nets)
        ≡ codes "*mangle"
          ∷ (codes "-F " ++ c.chain)
          ∷ (map (edge_line c) nets ++ (codes "COMMIT" ∷ [] ∷ []))
  unfolding edge_restore split_lines
  edge_restore-split_lines nets h =
      let rules = text_of (map (edge_rule c) nets) in
      split_lines-line (codes "*mangle")
        (codes "-F " ++ (c.chain ++ (10 ∷ (rules ++ codes "COMMIT\n"))))
        (unfold contains_byte in refl)
      ∙ ap (λ lines. codes "*mangle" ∷ lines)
          (ap split_lines
              (sym (append_assoc (codes "-F ") c.chain (10 ∷ (rules ++ codes "COMMIT\n"))))
            ∙ split_lines-line (codes "-F " ++ c.chain) (rules ++ codes "COMMIT\n")
                (append-IsOneLine (codes "-F ") c.chain (unfold contains_byte in refl) chain_line)
            ∙ ap (λ lines. (codes "-F " ++ c.chain) ∷ lines)
                (rules-lines nets (codes "COMMIT\n") h.forms
                  ∙ ap (λ lines. map (edge_line c) nets ++ lines)
                      (split_lines-line (codes "COMMIT") [] (unfold contains_byte in refl))))

-- The patterns of a configuration admit no newline.
all_bytes-IsOneLine :
    (test : ℕ → Bool) (s : Text)
    → ((c : ℕ) → test c ≡ true → (c == 10) ≡ false)
    → all_bytes test s ≡ true
    → IsOneLine s
unfolding contains_byte
all_bytes-IsOneLine test [] other h = refl
all_bytes-IsOneLine test (c ∷ s) other h =
    let (first, rest) = and-eq-true (test c) (all_bytes test s) h in
    rw (other c first) (all_bytes-IsOneLine test s other rest)

chain_pattern-IsOneLine : (s : Text) → chain_pattern s ≡ true → IsOneLine s
unfolding chain_pattern
chain_pattern-IsOneLine s h =
    all_bytes-IsOneLine is_word_byte s (λ c k. ground arith) (and-eq-true _ _ h).0

hex_pattern-IsOneLine : (s : Text) → hex_pattern s ≡ true → IsOneLine s
unfolding hex_pattern contains_byte
hex_pattern-IsOneLine [] h = refl
hex_pattern-IsOneLine (z ∷ []) h = absurd (ground arith)
hex_pattern-IsOneLine (z ∷ x ∷ digits) h =
    let line : IsOneLine digits =
      all_bytes-IsOneLine is_hex_byte digits (λ c k. ground arith) (ground arith) in
    ground (arith, line)

default-IsOneLine :
    (pattern_of : Text → Bool) (value fallback : Text) (e : Error)
    → ((s : Text) → pattern_of s ≡ true → IsOneLine s)
    → IsOneLine fallback
    → refuse (is_set value && not (pattern_of value)) e ≡ ok tt
    → IsOneLine (or_default value fallback)
default-IsOneLine pattern_of [] fallback e line h k = h
default-IsOneLine pattern_of (c ∷ value) fallback e line h k =
    line (c ∷ value) (matches (pattern_of (c ∷ value)) k)
  where
    matches : (b : Bool) → refuse (true && not b) e ≡ ok tt → b ≡ true
    matches true q = refl
    matches false q = absurd (ground arith)

-- For a driver that passes the checks of LoadConfig and the networks of a canonical set, the input of
-- iptables-restore that linux-edge writes, with its defaults for what the configuration leaves out, has
-- exactly these lines: the table, the flush of its chain, one rule for each network in order, the
-- commit, and an empty rest. No value starts a line of its own.
pub edge_restore-lines :
    (parsers : Parsers) (c : ApplyConfig) (nets : List Text)
    → check_apply parsers c ≡ ok tt
    → IsNetworkSet nets
    → split_lines (edge_restore (with_edge_defaults c) nets)
      ≡ codes "*mangle"
        ∷ (codes "-F " ++ (with_edge_defaults c).chain)
        ∷ (map (edge_line (with_edge_defaults c)) nets ++ (codes "COMMIT" ∷ [] ∷ []))
unfolding check_apply with_edge_defaults
edge_restore-lines parsers c nets checked h =
    let fine = first_error-All (checks_of_apply parsers c) checked in
    edge_restore-split_lines (with_edge_defaults c)
      (default-IsOneLine chain_pattern c.chain (codes "STREAM_PBR")
        (quoted (codes "invalid chain ") c.chain) chain_pattern-IsOneLine
        (unfold contains_byte in refl) fine.1.1.1.0)
      (default-IsOneLine hex_pattern c.mark (codes "0x20000000")
        (quoted (codes "invalid mark ") c.mark) hex_pattern-IsOneLine (unfold contains_byte in refl)
        fine.1.1.1.1.1.1.0)
      (default-IsOneLine hex_pattern c.mask (codes "0xff000000")
        (quoted (codes "invalid mask ") c.mask) hex_pattern-IsOneLine (unfold contains_byte in refl)
        fine.1.1.1.1.1.1.1.0)
      nets h
