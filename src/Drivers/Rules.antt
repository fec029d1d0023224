-- ===== src/Drivers/Rules.antt =====
-- The `ip rule` that the edge driver owns: how it is found among the rules, and made one.
use netflix_pbrd.Base.{
  ℕ, zero, suc, Bool, true, false, not, ◌&&◌, ◌||◌, List, [], ◌∷◌, ◌++◌, Option, none, some, Text,
  Io, ◌>>=◌, ◌>>◌, pure, catch, lift, Result, ok, err, Error, text, quoted, numbered, wrapped,
  codes, if◌then◌else◌, ◌==◌,
}
use netflix_pbrd.Text.{text_eq, has_prefix, trim_suffix, trim_space}
use netflix_pbrd.Text.Words.{words, fields, split_lines}
use netflix_pbrd.Networks.{equal}
use netflix_pbrd.Runner.{Runner}

-- What identifies the rule.
pub record RuleKey : Type 0 where
  pub priority : Text
  pub mark : Text
  pub mask : Text
  pub table : Text

pub data ℤ : Type 0 where
  pos : ℕ → ℤ
  negsuc : ℕ → ℤ

abbrev pub int_eq : ℤ → ℤ → Bool
int_eq (pos m) (pos n) = m == n
int_eq (negsuc m) (negsuc n) = m == n
int_eq _ _ = false

-- A JSON object: its fields, with their raw values.
abbrev pub JsonRule : Type 0
JsonRule = List (Text × Text)

-- `json.Unmarshal` into rules and into a string, `strconv.Atoi` (its value, also beside an error) and
-- `strconv.ParseUint(_, 0, 32)` (its value, and whether it is beside an error).
pub record RuleParsers : Type 0 where
  pub parse_rules : Text → Result (List JsonRule)
  pub parse_string : Text → Option Text
  pub atoi_value : Text → ℤ
  pub parse_uint : Text → ℕ × Bool

abbrev pub get_field : JsonRule → Text → Text
get_field [] name = []
get_field ((key, value) ∷ rule) name =
    let rest = get_field rule name in if text_eq key name then value else rest

abbrev pub is_expected_field : Text → Bool
is_expected_field field =
    text_eq field (codes "priority")
    || text_eq field (codes "src")
    || text_eq field (codes "dst")
    || text_eq field (codes "fwmark")
    || text_eq field (codes "fwmask")
    || text_eq field (codes "table")
    || text_eq field (codes "protocol")

unfoldable pub only_expected_fields : JsonRule → Bool
unfolding text_eq
only_expected_fields [] = true
only_expected_fields ((field, value) ∷ rule) = is_expected_field field && only_expected_fields rule

abbrev pub owned_error : Text → Error
owned_error priority =
    text (codes "ip rule priority " ++ (priority ++ codes " is already owned by another rule"))

abbrev pub owned_line_error : Text → Text → Error
owned_line_error priority line = text (
    codes "ip rule priority "
    ++ (priority ++ (codes " is already owned by another rule: " ++ trim_space line)))

abbrev pub parse_prefix : Text
parse_prefix = codes "parse ip -j rule show"

-- Whether the text of an error starts with "parse ip -j rule show:".
abbrev pub is_parse_error : Error → Bool
is_parse_error (text t) = has_prefix t (parse_prefix ++ codes ":")
is_parse_error (quoted t s) = has_prefix t (parse_prefix ++ codes ":")
is_parse_error (numbered t n) = has_prefix t (parse_prefix ++ codes ":")
is_parse_error (wrapped t e) = has_prefix (t ++ codes ": ") (parse_prefix ++ codes ":")

-- The lines of `ip rule show`, each as its fields.
abbrev pub expected_fields : RuleKey → List Text
expected_fields k =
    codes "from"
    ∷ codes "all"
    ∷ codes "fwmark"
    ∷ (k.mark ++ (codes "/" ++ k.mask))
    ∷ codes "lookup"
    ∷ k.table
    ∷ []

abbrev pub at_priority : Text → List Text → Bool
at_priority priority [] = false
at_priority priority (first ∷ rest) = text_eq (trim_suffix first (codes ":")) priority

abbrev pub tail_of : List Text → List Text
tail_of [] = []
tail_of (first ∷ rest) = rest

abbrev pub counted : Result ℕ → Result ℕ
counted (ok n) = ok (suc n)
counted (err e) = err e

unfoldable pub scan_lines_text : RuleKey → List Text → Result ℕ
unfolding fields equal trim_suffix text_eq
scan_lines_text k [] = ok 0
scan_lines_text k (line ∷ lines) =
    let rest = scan_lines_text k lines in
    if not (at_priority k.priority (fields line))
    then rest
    else if equal (tail_of (fields line)) (expected_fields k)
    then counted rest
    else err (owned_line_error k.priority line)

module _ (parsers : RuleParsers) where
  open parsers use {parse_rules, parse_string, atoi_value, parse_uint}

  abbrev pub unquoted : Text → Option Text → Text
  unquoted value (some s) = s
  unquoted value none = trim_space value

  abbrev pub raw_string : Text → Text
  raw_string [] = []
  raw_string (c ∷ value) = unquoted (c ∷ value) (parse_string (c ∷ value))

  abbrev pub is_neutral : Text → Text → Bool
  is_neutral neutral value =
      text_eq (raw_string value) (codes "") || text_eq (raw_string value) neutral

  -- The mask of a rule, all ones if it names none.
  abbrev pub mask_of : Text → ℕ × Bool
  mask_of [] = (0xffffffff, false)
  mask_of (c ∷ value) = parse_uint (c ∷ value)

  abbrev pub at_json_priority : RuleKey → JsonRule → Bool
  at_json_priority k rule =
      int_eq (atoi_value (raw_string (get_field rule (codes "priority")))) (atoi_value k.priority)

  abbrev pub is_neutral_rule : JsonRule → Bool
  is_neutral_rule rule =
      only_expected_fields rule
      && is_neutral (codes "all") (get_field rule (codes "src"))
      && is_neutral (codes "all") (get_field rule (codes "dst"))
      && is_neutral (codes "boot") (get_field rule (codes "protocol"))

  abbrev pub has_mark : RuleKey → JsonRule → Bool
  has_mark k rule =
      let mark = parse_uint (raw_string (get_field rule (codes "fwmark"))) in
      let mask = mask_of (raw_string (get_field rule (codes "fwmask"))) in
      not mark.1
      && not mask.1
      && mark.0 == (parse_uint k.mark).0
      && mask.0 == (parse_uint k.mask).0
      && text_eq (raw_string (get_field rule (codes "table"))) k.table

  unfoldable pub scan_rules : RuleKey → List JsonRule → Result ℕ
  unfolding only_expected_fields text_eq
  scan_rules k [] = ok 0
  scan_rules k (rule ∷ rules) =
      let rest = scan_rules k rules in
      if not (at_json_priority k rule)
      then rest
      else if not (is_neutral_rule rule)
      then err (owned_error k.priority)
      else if has_mark k rule
      then counted rest
      else err (owned_error k.priority)

  abbrev pub scan_parsed : RuleKey → Result (List JsonRule) → Result ℕ
  scan_parsed k (err e) = err (wrapped parse_prefix e)
  scan_parsed k (ok rules) = scan_rules k rules

  unfoldable pub scan_ip_rule_json : Text → RuleKey → Result ℕ
  unfolding scan_rules
  scan_ip_rule_json out k = scan_parsed k (parse_rules out)

  module _ {W : Type 0} (runner : Runner W) where
    open runner use {run, output}

    unfoldable pub scan_ip_rule_text : RuleKey → Io W ℕ
    unfolding scan_lines_text split_lines words
    scan_ip_rule_text k = do
      out ← output (codes "ip") (words "rule show")
      lift (scan_lines_text k (split_lines out))

    -- What the scan of the JSON decides: only output that does not parse is scanned as text.
    abbrev pub decided : RuleKey → Result ℕ → Io W ℕ
    decided k (ok exact) = pure exact
    decided k (err e) = if is_parse_error e then scan_ip_rule_text k else lift (err e)

    abbrev pub inspected : RuleKey → Result Text → Io W ℕ
    inspected k (ok out) = decided k (scan_ip_rule_json out k)
    inspected k (err e) = scan_ip_rule_text k

    unfoldable pub inspect_ip_rule : RuleKey → Io W ℕ
    unfolding words
    inspect_ip_rule k = do
      shown ← catch (output (codes "ip") (words "-j rule show"))
      inspected k shown

    abbrev pub rule_args : Text → RuleKey → List Text
    rule_args action k =
        codes "rule"
        ∷ action
        ∷ codes "pref"
        ∷ k.priority
        ∷ codes "fwmark"
        ∷ (k.mark ++ (codes "/" ++ k.mask))
        ∷ codes "lookup"
        ∷ k.table
        ∷ []

    unfoldable pub delete_times : ℕ → RuleKey → Io W (Unit {0})
    delete_times zero k = pure tt
    delete_times (suc n) k = do run (codes "ip") (rule_args (codes "del") k); delete_times n k

    unfoldable pub ensure_ip_rule_count : ℕ → RuleKey → Io W (Unit {0})
    unfolding delete_times
    ensure_ip_rule_count (suc zero) k = pure tt
    ensure_ip_rule_count exact k = do
      delete_times exact k
      run (codes "ip") (rule_args (codes "add") k)

    unfoldable pub ensure_ip_rule : RuleKey → Io W (Unit {0})
    ensure_ip_rule k = do exact ← inspect_ip_rule k; ensure_ip_rule_count exact k

    unfoldable pub delete_owned_ip_rule : RuleKey → Io W (Unit {0})
    delete_owned_ip_rule k = do exact ← inspect_ip_rule k; delete_times exact k

    unfoldable pub ensure_ip_rule_json : Text → RuleKey → Io W (Unit {0})
    ensure_ip_rule_json out k = do
      exact ← lift (scan_ip_rule_json out k)
      ensure_ip_rule_count exact k

    unfoldable pub ensure_ip_rule_text : RuleKey → Io W (Unit {0})
    ensure_ip_rule_text k = do exact ← scan_ip_rule_text k; ensure_ip_rule_count exact k
