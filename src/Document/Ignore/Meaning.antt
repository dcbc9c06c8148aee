-- ===== src/Document/Ignore/Meaning.antt =====
-- What a rule of daemon/src/document/ignore.rs ignores, said without the search of the source.
use import_lens.Prelude.{
  any-In, In-any, strip_prefix, strip_prefix-split, strip_prefix_iff, ℕ, ◌≡◌, ◌↔◌, ◌⊎◌, inl, inr,
  refl, ap, ap₂, sym, subst, ◌∙◌, Bool, true, false, ◌||◌, [], ◌∷◌, ◌++◌, Option, none, some, ◌==◌,
  ==_iff, In, here, there, arith, Bool-cases, if◌then◌else◌,
}
use import_lens.Document.Glob.{Bytes, glob_matches_exact}
use import_lens.Document.Glob.Relation.{Matches, tokens, glob_matches_exact_iff}
use import_lens.Document.Ignore.{
  ImportLensIgnore, ImportLensIgnoreRule, package_kind, import_kind, path_kind, DetectedImport,
  normalize_path, trim_end_slashes, suffixes_after_slashes, matches_anchored, matches_anywhere,
  glob_matches_path, rule_ignores, should_ignore_import,
}

-- A suffix after a slash, as a split of the text at that slash.
suffix-split :
    (s after : Bytes)
    → In after (suffixes_after_slashes s)
    → (before : Bytes) × (s ≡ before ++ b'/' ∷ after)
unfolding suffixes_after_slashes
suffix-split [] after i = elim i [ ]
suffix-split (c ∷ s) after i = go (suffix-split s after) (c == b'/') refl i
  where
    go :
        (In after (suffixes_after_slashes s) → (before : Bytes) × (s ≡ before ++ b'/' ∷ after))
        → (b : Bool) → (c == b'/') ≡ b
        → In after (if b then s ∷ suffixes_after_slashes s else suffixes_after_slashes s)
        → (before : Bytes) × (c ∷ s ≡ before ++ b'/' ∷ after)
    go ih true e (here h) = ([], ap₂ (λ x s. x ∷ s) ((==_iff c b'/').0 e) (sym h))
    go ih true e (there j) = let (before, h) = ih j in (c ∷ before, ap (λ s. c ∷ s) h)
    go ih false e j = let (before, h) = ih j in (c ∷ before, ap (λ s. c ∷ s) h)

split-suffix : (before after : Bytes) → In after (suffixes_after_slashes (before ++ b'/' ∷ after))
unfolding suffixes_after_slashes
split-suffix [] after = here refl
split-suffix (c ∷ before) after =
    elim (c == b'/')
      as (λ b. In after (
        if b
        then (before ++ b'/' ∷ after) ∷ suffixes_after_slashes (before ++ b'/' ∷ after)
        else suffixes_after_slashes (before ++ b'/' ∷ after))) [
          | true ↦ there (split-suffix before after)
          | false ↦ split-suffix before after
        ]

-- A pattern matches the whole path, or what follows one of its slashes.
abbrev pub MatchesAnywhere : Bytes → Bytes → Type 0
MatchesAnywhere pattern path =
    Matches (tokens pattern) path
    ⊎ ((before : Bytes) × (after : Bytes) × (path ≡ before ++ b'/' ∷ after)
        × Matches (tokens pattern) after)

or_iff : (a b : Bool) → ((a || b) ≡ true) ↔ ((a ≡ true) ⊎ (b ≡ true))
or_iff true b = (λ h. inl refl, λ h. refl)
or_iff false b = (λ h. inr h, λ h. elim h [ inl e ↦ absurd (cc) | inr e ↦ e ])

matches_anywhere_iff :
    (pattern path : Bytes) → (matches_anywhere pattern path ≡ true) ↔ MatchesAnywhere pattern path
unfolding matches_anywhere
matches_anywhere_iff pattern path = (forward, back)
  where
    p : Bytes → Bool
    p suffix = glob_matches_exact pattern suffix

    forward : matches_anywhere pattern path ≡ true → MatchesAnywhere pattern path
    forward h = elim ((or_iff _ _).0 h) [
      | inl e ↦ inl ((glob_matches_exact_iff pattern path).0 e)
      | inr e ↦
          let (after, i, m) = any-In p (suffixes_after_slashes path) e in
          let (before, split) = suffix-split path after i in
          inr (before, after, split, (glob_matches_exact_iff pattern after).0 m)
    ]

    back : MatchesAnywhere pattern path → matches_anywhere pattern path ≡ true
    back (inl m) = (or_iff _ _).1 (inl ((glob_matches_exact_iff pattern path).1 m))
    back (inr (before, after, split, m)) = (or_iff _ _).1 (
        inr (
          In-any p (suffixes_after_slashes path) after
            (subst (λ s. In after (suffixes_after_slashes s)) (sym split)
              (split-suffix before after))
            ((glob_matches_exact_iff pattern after).1 m)))

-- A pattern matches what follows the base directory and a slash.
abbrev pub MatchesAnchored : Bytes → Bytes → Bytes → Type 0
MatchesAnchored anchored path base =
    (relative : Bytes) × (path ≡ trim_end_slashes base ++ b'/' ∷ relative)
    × Matches (tokens anchored) relative

-- A test of what follows a prefix.
after_prefix : Bytes → Bytes → (Bytes → Bool) → Bool
after_prefix p s k = elim (strip_prefix p s) [ none ↦ false | some rest ↦ k rest ]

after_prefix_iff :
    (p s : Bytes) (k : Bytes → Bool)
    → (after_prefix p s k ≡ true) ↔ ((rest : Bytes) × (s ≡ p ++ rest) × (k rest ≡ true))
unfolding after_prefix
after_prefix_iff p s k = (forward (strip_prefix p s) refl, back)
  where
    forward :
        (o : Option Bytes)
        → strip_prefix p s ≡ o
        → (elim o [ none ↦ false | some rest ↦ k rest ]) ≡ true
        → (rest : Bytes) × (s ≡ p ++ rest) × (k rest ≡ true)
    forward none e h = absurd (cc)
    forward (some rest) e h = (rest, strip_prefix-split p s rest e, h)

    back :
        ((rest : Bytes) × (s ≡ p ++ rest) × (k rest ≡ true))
        → (elim (strip_prefix p s) [ none ↦ false | some rest ↦ k rest ]) ≡ true
    back (rest, split, h) = rw ((strip_prefix_iff p s rest).1 split) h

matches_anchored_iff :
    (anchored path base : Bytes)
    → (matches_anchored anchored path base ≡ true) ↔ MatchesAnchored anchored path base
unfolding matches_anchored after_prefix
matches_anchored_iff anchored path base = (forward, back)
  where
    stem : Bytes
    stem = trim_end_slashes base

    slash : Bytes
    slash = b'/' ∷ []

    tail : Bytes → Bool
    tail rest = after_prefix slash rest (glob_matches_exact anchored)

    forward : matches_anchored anchored path base ≡ true → MatchesAnchored anchored path base
    forward h =
        let (rest, split, h') = (after_prefix_iff stem path tail).0 h in
        let (relative, split', m) =
          (after_prefix_iff slash rest (glob_matches_exact anchored)).0 h' in
        (
          relative,
          split ∙ ap (λ s. stem ++ s) split',
          (glob_matches_exact_iff anchored relative).0 m,
        )

    back : MatchesAnchored anchored path base → matches_anchored anchored path base ≡ true
    back (relative, split, m) = (after_prefix_iff stem path tail).1 (
      b'/' ∷ relative,
      split,
      (after_prefix_iff slash (b'/' ∷ relative) (glob_matches_exact anchored)).1
          (relative, refl, (glob_matches_exact_iff anchored relative).1 m),
    )

-- A path rule: anchored to the directory of the ignore file if it begins with a slash.
abbrev pub MatchesPath : Bytes → Bytes → Bytes → Type 0
MatchesPath [] path base = MatchesAnywhere [] path
MatchesPath (c ∷ pattern) path base =
    ((c ≡ b'/') × MatchesAnchored pattern path base)
    ⊎ (¬ (c ≡ b'/') × MatchesAnywhere (c ∷ pattern) path)

-- The first matching of a path rule, on texts that are normalized.
abbrev matches_normalized : Bytes → Bytes → Bytes → Bool
matches_normalized pattern path base = elim (strip_prefix (b'/' ∷ []) pattern) [
  | some anchored ↦ matches_anchored anchored path base
  | none ↦ matches_anywhere pattern path
]

matches_normalized_iff :
    (pattern path base : Bytes)
    → (matches_normalized pattern path base ≡ true) ↔ MatchesPath pattern path base
unfolding strip_prefix
matches_normalized_iff [] path base = matches_anywhere_iff [] path
matches_normalized_iff (c ∷ pattern) path base = elim (Bool-cases (b'/' == c)) [
  | inl e ↦
      rw (e, matches_normalized)
        (
          λ h. inl (sym ((==_iff b'/' c).0 e), (matches_anchored_iff pattern path base).0 h),
          λ m. elim m [
            | inl (_, a) ↦ (matches_anchored_iff pattern path base).1 a
            | inr (n, _) ↦ absurd (n (sym ((==_iff b'/' c).0 e)))
          ],
        )
  | inr e ↦
      rw (e, matches_normalized)
        (
          λ h. inr (λ q. absurd (differ c e q), (matches_anywhere_iff (c ∷ pattern) path).0 h),
          λ m. elim m [
            | inl (q, _) ↦ absurd (differ c e q)
            | inr (_, a) ↦ (matches_anywhere_iff (c ∷ pattern) path).1 a
          ],
        )
]
  where
    differ : (c : ℕ) → (b'/' == c) ≡ false → ¬ (c ≡ b'/')
    differ c e q = ground (arith, ==_iff b'/' c)

-- What it means that a rule ignores an import of a file.
abbrev pub Ignores : DetectedImport → Bytes → Bytes → ImportLensIgnoreRule → Type 0
Ignores detected file base rule = elim (rule.kind) [
  | package_kind ↦ Matches (tokens rule.pattern) detected.package_name
  | import_kind ↦ Matches (tokens rule.pattern) detected.specifier
  | path_kind ↦
      MatchesPath (normalize_path rule.pattern) (normalize_path file) (normalize_path base)
]

rule_ignores_iff :
    (detected : DetectedImport) (file base : Bytes) (rule : ImportLensIgnoreRule)
    → (rule_ignores detected file base rule ≡ true) ↔ Ignores detected file base rule
unfolding rule_ignores glob_matches_path
rule_ignores_iff detected file base rule =
    elim (rule.kind)
      as (λ kind.
        ((elim kind [
          | package_kind ↦ glob_matches_exact rule.pattern detected.package_name
          | import_kind ↦ glob_matches_exact rule.pattern detected.specifier
          | path_kind ↦ glob_matches_path rule.pattern file base
        ])
          ≡ true)
        ↔ (elim kind [
          | package_kind ↦ Matches (tokens rule.pattern) detected.package_name
          | import_kind ↦ Matches (tokens rule.pattern) detected.specifier
          | path_kind ↦
              MatchesPath (normalize_path rule.pattern) (normalize_path file) (normalize_path base)
        ])) [
          | package_kind ↦ glob_matches_exact_iff rule.pattern detected.package_name
          | import_kind ↦ glob_matches_exact_iff rule.pattern detected.specifier
          | path_kind ↦
              matches_normalized_iff (normalize_path rule.pattern) (normalize_path file)
                (normalize_path base)
        ]

-- An import is ignored if and only if some rule of the file ignores it: a package or import rule whose
-- pattern matches the name or the specifier, or a path rule that matches, with `/` for `\`, the file's
-- path below the directory of the ignore file if the pattern begins with a slash, and otherwise the
-- whole path or what follows one of its slashes. `**` stands for any text, `*` for text without a slash.
pub should_ignore_import_iff :
    (detected : DetectedImport) (file : Bytes) (ignore : ImportLensIgnore)
    → (should_ignore_import detected file ignore ≡ true) ↔ (
        (rule : ImportLensIgnoreRule) × In rule ignore.rules
        × Ignores detected file ignore.base_directory rule)
unfolding should_ignore_import
should_ignore_import_iff detected file ignore = (
  λ h.
      let (rule, i, m) = any-In (rule_ignores detected file ignore.base_directory) ignore.rules h in
      (rule, i, (rule_ignores_iff detected file ignore.base_directory rule).0 m),
  λ (rule, i, m).
      In-any (rule_ignores detected file ignore.base_directory) ignore.rules rule i
        ((rule_ignores_iff detected file ignore.base_directory rule).1 m),
)
