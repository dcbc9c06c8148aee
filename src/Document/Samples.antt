-- ===== src/Document/Samples.antt =====
-- Runs of the modules on daemon/src/document, and an input where each of their theorems applies.
use import_lens.Prelude.{
  strip_prefix, bytes_eq, ◌≡◌, ◌↔◌, refl, true, false, List, [], ◌∷◌, codes, In, All,
}
use import_lens.Document.Glob.{glob_matches_exact}
use import_lens.Document.Glob.Memo.{accepts, glob_matches_exact-accepts}
use import_lens.Document.Glob.Relation.{Matches, tokens, glob_matches_exact_iff}
use import_lens.Document.Ignore.{
  ImportLensIgnore, ImportLensIgnoreRule, DetectedImport, package_kind, path_kind,
  should_ignore_import, parse_import_lens_ignore, parse_rule_line, split_once, rule_of, lines_from,
  trim, trim_start, trim_end, is_rule_line, glob_matches_path, rule_ignores, trim_end_slashes,
  matches_anchored,
}
use import_lens.Document.Ignore.Meaning.{Ignores, should_ignore_import_iff}
use import_lens.Document.Ignore.Print.{Printable, print_rules, parse-print_rules}

one_star_stops_at_a_slash : glob_matches_exact (codes "src/*.ts") (codes "src/a/b.ts") ≡ false
unfolding glob_matches_exact
one_star_stops_at_a_slash = refl

two_stars_do_not : glob_matches_exact (codes "src/**.ts") (codes "src/a/b.ts") ≡ true
unfolding glob_matches_exact
two_stars_do_not = refl

abbrev rules : List ImportLensIgnoreRule
rules =
    record { kind = package_kind; pattern = codes "lod*" }
    ∷ record { kind = path_kind; pattern = codes "/gen/**" }
    ∷ []

abbrev file_rules : ImportLensIgnore
file_rules = record { base_directory = codes "C:\\app\\"; rules = rules }

abbrev react : DetectedImport
react = record { specifier = codes "react/jsx"; package_name = codes "react" }

comments_and_blank_lines_are_dropped :
    parse_import_lens_ignore (codes "# c\r\n\n  package:lod* \npath:/gen/**") (codes "C:\\app\\")
    ≡ file_rules
unfolding parse_import_lens_ignore parse_rule_line split_once rule_of bytes_eq lines_from trim
    trim_start trim_end is_rule_line
comments_and_blank_lines_are_dropped = refl

an_anchored_rule_reads_the_base :
    should_ignore_import react (codes "C:\\app\\gen\\a.ts") file_rules ≡ true
unfolding should_ignore_import rule_ignores glob_matches_path strip_prefix trim_end_slashes
    matches_anchored glob_matches_exact
an_anchored_rule_reads_the_base = refl

glob_matches_exact-accepts_example :
    glob_matches_exact (codes "a**/b") (codes "ax/y/b") ≡ accepts (codes "a**/b") (codes "ax/y/b")
glob_matches_exact-accepts_example = glob_matches_exact-accepts (codes "a**/b") (codes "ax/y/b")

glob_matches_exact_iff_example :
    (glob_matches_exact (codes "a*") (codes "ab") ≡ true)
    ↔ Matches (tokens (codes "a*")) (codes "ab")
glob_matches_exact_iff_example = glob_matches_exact_iff (codes "a*") (codes "ab")

should_ignore_import_iff_example :
    (should_ignore_import react (codes "C:\\app\\gen\\a.ts") file_rules ≡ true) ↔ (
      (rule : ImportLensIgnoreRule) × In rule file_rules.rules
      × Ignores react (codes "C:\\app\\gen\\a.ts") file_rules.base_directory rule)
should_ignore_import_iff_example =
    should_ignore_import_iff react (codes "C:\\app\\gen\\a.ts") file_rules

rules-Printable : All Printable rules
unfolding trim_end
rules-Printable = ((refl, refl), ((refl, refl), tt))

parse-print_rules_example :
    parse_import_lens_ignore (print_rules rules) (codes "app")
    ≡ record { base_directory = codes "app"; rules = rules }
parse-print_rules_example = parse-print_rules (codes "app") rules rules-Printable
