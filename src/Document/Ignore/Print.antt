-- ===== src/Document/Ignore/Print.antt =====
-- Rules of daemon/src/document/ignore.rs, written to a file and read back.
use import_lens.Prelude.{
  bytes_eq, ℕ, ◌≡◌, refl, ap, sym, ◌∙◌, true, false, not, ◌&&◌, List, [], ◌∷◌, ◌++◌, ◌==◌, arith,
  Bool-cases, if◌then◌else◌, codes, all, All, append_nil, inl, inr,
}
use import_lens.Document.Glob.{Bytes, is_empty}
use import_lens.Document.Ignore.{
  ImportLensIgnoreRule, ImportLensIgnoreRuleKind, package_kind, import_kind, path_kind, trim_start,
  trim_end, trim, is_whitespace, drop_return, lines_from, split_once, rule_of, parse_rule_line,
  is_rule_line, parse_import_lens_ignore,
}

abbrev pub kind_name : ImportLensIgnoreRuleKind → Bytes
kind_name package_kind = codes "package"
kind_name import_kind = codes "import"
kind_name path_kind = codes "path"

abbrev pub print_rule : ImportLensIgnoreRule → Bytes
print_rule rule = kind_name rule.kind ++ b':' ∷ rule.pattern

abbrev pub print_rules : List ImportLensIgnoreRule → Bytes
print_rules [] = []
print_rules (rule ∷ rules) = print_rule rule ++ b'\n' ∷ print_rules rules

-- A pattern on one line that does not end in whitespace.
abbrev pub Printable : ImportLensIgnoreRule → Type 0
Printable rule =
    (all (λ c. not (c == b'\n')) rule.pattern ≡ true) × (trim_end rule.pattern ≡ rule.pattern)

parse-print_rule : (rule : ImportLensIgnoreRule) → parse_rule_line (print_rule rule) ≡ rule
unfolding parse_rule_line split_once rule_of bytes_eq
parse-print_rule rule =
    elim (rule.kind)
      as (λ kind.
        parse_rule_line (kind_name kind ++ b':' ∷ rule.pattern)
        ≡ record { kind = kind; pattern = rule.pattern }) [
          | package_kind ↦ refl
          | import_kind ↦ refl
          | path_kind ↦ refl
        ]

append-push : (line : Bytes) (c : ℕ) (s : Bytes) → (line ++ c ∷ []) ++ s ≡ line ++ c ∷ s
append-push [] c s = refl
append-push (x ∷ line) c s = ap (λ l. x ∷ l) (append-push line c s)

lines-line :
    (line s rest : Bytes)
    → all (λ c. not (c == b'\n')) s ≡ true
    → lines_from line (s ++ b'\n' ∷ rest) ≡ drop_return (line ++ s) ∷ lines_from [] rest
unfolding lines_from
lines-line line [] rest h = ap (λ l. drop_return l ∷ lines_from [] rest) (sym (append_nil line))
lines-line line (c ∷ s) rest h = elim (Bool-cases (c == b'\n')) [
  | inl e ↦ absurd (ground arith)
  | inr e ↦
      rw (e, lines_from)
        (lines-line (line ++ c ∷ []) s rest (ground arith)
          ∙ ap (λ l. drop_return l ∷ lines_from [] rest) (append-push line c s))
]

trim_end-drop_return : (s : Bytes) → trim_end (drop_return s) ≡ trim_end s
unfolding trim_end
trim_end-drop_return [] = refl
trim_end-drop_return (c ∷ []) = ground arith
trim_end-drop_return (c ∷ d ∷ s) = rw (trim_end-drop_return (d ∷ s)) refl

trim_end-append :
    (a b : Bytes) → is_empty (trim_end b) ≡ false → trim_end (a ++ b) ≡ a ++ trim_end b
unfolding trim_end
trim_end-append [] b h = refl
trim_end-append (c ∷ a) b h = rw (trim_end-append a b h) (filled a (trim_end b) h)
  where
    filled :
        (a b : Bytes)
        → is_empty b ≡ false
        → (if is_empty (a ++ b) && is_whitespace c then [] else c ∷ a ++ b) ≡ c ∷ a ++ b
    filled [] [] h = absurd (cc)
    filled [] (x ∷ b) h = refl
    filled (x ∷ a) b h = refl

-- A printed rule is its own line once it is trimmed.
trim-print_rule :
    (rule : ImportLensIgnoreRule)
    → trim_end rule.pattern ≡ rule.pattern
    → trim (drop_return (print_rule rule)) ≡ print_rule rule
unfolding trim trim_start trim_end
trim-print_rule rule h = start ∙ trim_end-drop_return (print_rule rule) ∙ trimmed
  where
    start : trim (drop_return (print_rule rule)) ≡ trim_end (drop_return (print_rule rule))
    start =
        elim (rule.kind)
          as (λ kind.
            trim (drop_return (kind_name kind ++ b':' ∷ rule.pattern))
            ≡ trim_end (drop_return (kind_name kind ++ b':' ∷ rule.pattern))) [
              | package_kind ↦ refl
              | import_kind ↦ refl
              | path_kind ↦ refl
            ]

    colon : trim_end (b':' ∷ rule.pattern) ≡ b':' ∷ rule.pattern
    colon =
        rw h
          (elim (rule.pattern) as (λ p. (if is_empty p && false then [] else b':' ∷ p) ≡ b':' ∷ p) [
            | [] ↦ refl
            | c ∷ p ↦ refl
          ])

    trimmed : trim_end (print_rule rule) ≡ print_rule rule
    trimmed =
        trim_end-append (kind_name rule.kind) (b':' ∷ rule.pattern) (ap is_empty colon)
        ∙ ap (λ s. kind_name rule.kind ++ s) colon

line_of-rule : (rule : ImportLensIgnoreRule) → is_rule_line (print_rule rule) ≡ true
unfolding is_rule_line
line_of-rule rule =
    elim (rule.kind) as (λ kind. is_rule_line (kind_name kind ++ b':' ∷ rule.pattern) ≡ true) [
      | package_kind ↦ refl
      | import_kind ↦ refl
      | path_kind ↦ refl
    ]

one_line :
    (rule : ImportLensIgnoreRule)
    → all (λ c. not (c == b'\n')) rule.pattern ≡ true
    → all (λ c. not (c == b'\n')) (print_rule rule) ≡ true
one_line rule h =
    elim (rule.kind)
      as (λ kind. all (λ c. not (c == b'\n')) (kind_name kind ++ b':' ∷ rule.pattern) ≡ true) [
        | package_kind ↦ h
        | import_kind ↦ h
        | path_kind ↦ h
      ]

-- Rules whose patterns stand on one line and do not end in whitespace, each written on a line as its
-- kind, a colon and its pattern, are read back as they were, in their order.
pub parse-print_rules :
    (base : Bytes) (rules : List ImportLensIgnoreRule)
    → All Printable rules
    → parse_import_lens_ignore (print_rules rules) base
      ≡ record { base_directory = base; rules = rules }
unfolding parse_import_lens_ignore lines_from
parse-print_rules base [] h = refl
parse-print_rules base (rule ∷ rules) h =
    rw
      (
        lines-line [] (print_rule rule) (print_rules rules) (one_line rule h.0.0),
        trim-print_rule rule h.0.1,
        line_of-rule rule,
        parse-print_rule rule,
      )
      (ap (λ i. record { base_directory = base; rules = rule ∷ i.rules })
        (parse-print_rules base rules h.1))
