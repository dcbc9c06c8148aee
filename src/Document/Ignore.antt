-- ===== src/Document/Ignore.antt =====
-- daemon/src/document/ignore.rs: the rules of an `.importlensignore` file, parsed and applied. Text is
-- its bytes. `str::trim` also drops Unicode whitespace, which the ASCII bytes here do not have, and the
-- walk over the directories is in Resolver.
pub mod Meaning
pub mod Print
use import_lens.Prelude.{
  strip_prefix, bytes_eq, ℕ, suc, Bool, true, false, not, ◌&&◌, ◌||◌, List, [], ◌∷◌, ◌++◌, map,
  Option, none, some, ◌==◌, leb, if◌then◌else◌, any, retain, length, codes,
}
use import_lens.Document.Glob.{Bytes, is_empty, glob_matches_exact}

pub data ImportLensIgnoreRuleKind : Type 0 where
  package_kind import_kind path_kind : ImportLensIgnoreRuleKind

pub record ImportLensIgnoreRule : Type 0 where
  pub kind : ImportLensIgnoreRuleKind
  pub pattern : Bytes

pub record ImportLensIgnore : Type 0 where
  pub base_directory : Bytes
  pub rules : List ImportLensIgnoreRule

pub record DetectedImport : Type 0 where
  pub specifier : Bytes
  pub package_name : Bytes

-- The ASCII part of `char::is_whitespace`.
abbrev pub is_whitespace : ℕ → Bool
is_whitespace c = (leb 9 c && leb c 13) || c == 32

unfoldable pub trim_start : Bytes → Bytes
trim_start [] = []
trim_start (c ∷ s) = let rest = trim_start s in if is_whitespace c then rest else c ∷ s

unfoldable pub trim_end : Bytes → Bytes
trim_end [] = []
trim_end (c ∷ s) =
    let rest = trim_end s in if is_empty rest && is_whitespace c then [] else c ∷ rest

unfoldable pub trim : Bytes → Bytes
unfolding trim_start trim_end
trim s = trim_end (trim_start s)

-- A carriage return before the line feed belongs to the ending.
abbrev pub drop_return : Bytes → Bytes
drop_return [] = []
drop_return (c ∷ []) = if c == b'\r' then [] else c ∷ []
drop_return (c ∷ d ∷ s) = c ∷ drop_return (d ∷ s)

-- `str::lines`; `line` is what was read of the current line.
unfoldable pub lines_from : Bytes → Bytes → List Bytes
lines_from line [] = if is_empty line then [] else line ∷ []
lines_from line (c ∷ s) = elim (c == b'\n') [
  | true ↦ drop_return line ∷ lines_from [] s
  | false ↦ lines_from (line ++ c ∷ []) s
]

unfoldable pub split_once : ℕ → Bytes → Option (Bytes × Bytes)
split_once sep [] = none
split_once sep (c ∷ s) =
    let rest = split_once sep s in
    if c == sep
    then some ([], s)
    else elim rest [ none ↦ none | some (before, after) ↦ some (c ∷ before, after) ]

unfoldable pub rule_of : Bytes → Bytes → Bytes → ImportLensIgnoreRule
rule_of line kind pattern =
    if bytes_eq kind (codes "package")
    then record { kind = package_kind; pattern = pattern }
    else if bytes_eq kind (codes "import")
    then record { kind = import_kind; pattern = pattern }
    else if bytes_eq kind (codes "path")
    then record { kind = path_kind; pattern = pattern }
    else record { kind = import_kind; pattern = line }

unfoldable pub parse_rule_line : Bytes → ImportLensIgnoreRule
parse_rule_line line = elim (split_once b':' line) [
  | none ↦ record { kind = import_kind; pattern = line }
  | some (kind, pattern) ↦ rule_of line kind pattern
]

unfoldable pub is_rule_line : Bytes → Bool
is_rule_line [] = false
is_rule_line (c ∷ _) = not (c == b'#')

unfoldable pub parse_import_lens_ignore : Bytes → Bytes → ImportLensIgnore
parse_import_lens_ignore contents base = record {
  base_directory = base;
  rules = map parse_rule_line (retain is_rule_line (map trim (lines_from [] contents)));
}

abbrev pub normalize_byte : ℕ → ℕ
normalize_byte c = if c == b'\\' then b'/' else c

abbrev pub normalize_path : Bytes → Bytes
normalize_path = map normalize_byte

unfoldable pub trim_end_slashes : Bytes → Bytes
trim_end_slashes [] = []
trim_end_slashes (c ∷ s) =
    let rest = trim_end_slashes s in if is_empty rest && c == b'/' then [] else c ∷ rest

unfoldable pub suffixes_after_slashes : Bytes → List Bytes
suffixes_after_slashes [] = []
suffixes_after_slashes (c ∷ s) =
    let rest = suffixes_after_slashes s in if c == b'/' then s ∷ rest else rest

unfoldable pub matches_anchored : Bytes → Bytes → Bytes → Bool
matches_anchored anchored path base = elim (strip_prefix (trim_end_slashes base) path) [
  | none ↦ false
  | some rest ↦ elim (strip_prefix (b'/' ∷ []) rest) [
    | none ↦ false
    | some relative ↦ glob_matches_exact anchored relative
  ]
]

unfoldable pub matches_anywhere : Bytes → Bytes → Bool
matches_anywhere pattern path =
    glob_matches_exact pattern path
    || any (λ suffix. glob_matches_exact pattern suffix) (suffixes_after_slashes path)

unfoldable pub glob_matches_path : Bytes → Bytes → Bytes → Bool
glob_matches_path pattern file base = elim (strip_prefix (b'/' ∷ []) (normalize_path pattern)) [
  | some anchored ↦ matches_anchored anchored (normalize_path file) (normalize_path base)
  | none ↦ matches_anywhere (normalize_path pattern) (normalize_path file)
]

unfoldable pub rule_ignores : DetectedImport → Bytes → Bytes → ImportLensIgnoreRule → Bool
rule_ignores detected file base rule = elim (rule.kind) [
  | package_kind ↦ glob_matches_exact rule.pattern detected.package_name
  | import_kind ↦ glob_matches_exact rule.pattern detected.specifier
  | path_kind ↦ glob_matches_path rule.pattern file base
]

unfoldable pub should_ignore_import : DetectedImport → Bytes → ImportLensIgnore → Bool
should_ignore_import detected file ignore =
    any (rule_ignores detected file ignore.base_directory) ignore.rules
