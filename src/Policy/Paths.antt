-- ===== src/Policy/Paths.antt =====
-- `_path_matches` of packages/policy/src/stateweaver/policy/evaluator.py: the pattern is escaped, then
-- `**` becomes `.*` and `*` becomes `[^/]*`, and the whole path must match. A string is a list of code
-- points.
use stateweaver.Common.{
  Text, ℕ, ◌≡◌, ◌≢◌, refl, sym, subst, In, ap, ◌↔◌, inl, inr, Bool, true, false, not, ◌&&◌, ◌||◌,
  List, [], ◌∷◌, ◌++◌, arith, ◌==◌, if◌then◌else◌, all, Bool-cases, ℕ_discrete,
}

abbrev pub asterisk : ℕ
asterisk = 42

abbrev pub slash : ℕ
slash = 47

abbrev pub newline : ℕ
newline = 10

-- A part of the expression: a character, `[^/]*`, or `.*`, whose dot is every character but a newline.
pub data Token : Type 0 where
  literal : ℕ → Token
  in_segment across_segments : Token

-- `re.escape` and the two replacements; `**` is replaced first, from the left.
unfoldable pub expression : Text → List Token
expression [] = []
expression (c ∷ []) = (if c == asterisk then in_segment else literal c) ∷ []
expression (c ∷ d ∷ cs) =
    let short = expression cs in
    let long = expression (d ∷ cs) in
    if c == asterisk
    then (if d == asterisk then across_segments ∷ short else in_segment ∷ long)
    else literal c ∷ long

-- A repetition of the characters that satisfy `p`, then the rest of the expression.
unfoldable pub repeated : (ℕ → Bool) → (Text → Bool) → Text → Bool
repeated p rest [] = rest []
repeated p rest (c ∷ cs) = let further = repeated p rest cs in rest (c ∷ cs) || p c && further

abbrev pub not_slash : ℕ → Bool
not_slash c = not (c == slash)

abbrev pub not_newline : ℕ → Bool
not_newline c = not (c == newline)

-- `re.fullmatch`.
unfoldable pub full_match : List Token → Text → Bool
unfolding repeated
full_match [] [] = true
full_match [] (c ∷ cs) = false
full_match (literal a ∷ ts) [] = false
full_match (literal a ∷ ts) (c ∷ cs) = c == a && full_match ts cs
full_match (in_segment ∷ ts) cs = repeated not_slash (full_match ts) cs
full_match (across_segments ∷ ts) cs = repeated not_newline (full_match ts) cs

unfoldable pub path_matches : Text → Text → Bool
unfolding expression full_match
path_matches pattern path = full_match (expression pattern) path

-- What an expression means: the path is a concatenation of what its parts stand for.
abbrev pub Denotes : List Token → Text → Type 0
Denotes [] path = path ≡ []
Denotes (literal a ∷ ts) path = (rest : Text) × (path ≡ a ∷ rest) × Denotes ts rest
Denotes (in_segment ∷ ts) path =
    (run : Text) × (rest : Text) × (path ≡ run ++ rest)
    × (all not_slash run ≡ true)
    × Denotes ts rest
Denotes (across_segments ∷ ts) path =
    (run : Text) × (rest : Text) × (path ≡ run ++ rest)
    × (all not_newline run ≡ true)
    × Denotes ts rest

-- A repetition is a prefix of such characters.
repeated_prefix :
    (p : ℕ → Bool) (rest : Text → Bool) (cs : Text)
    → repeated p rest cs ≡ true
    → (run : Text) × (tail : Text) × (cs ≡ run ++ tail) × (all p run ≡ true) × (rest tail ≡ true)
unfolding repeated
repeated_prefix p rest [] e = ([], [], refl, refl, e)
repeated_prefix p rest (c ∷ cs) e = elim (Bool-cases (rest (c ∷ cs))) [
  | inl q ↦ ([], c ∷ cs, refl, refl, q)
  | inr q ↦
      let (run, tail, split, good, done) = repeated_prefix p rest cs (ground arith) in
      (c ∷ run, tail, ap (λ xs. c ∷ xs) split, ground arith, done)
]

prefix_repeated :
    (p : ℕ → Bool) (rest : Text → Bool) (run tail : Text)
    → all p run ≡ true
    → rest tail ≡ true
    → repeated p rest (run ++ tail) ≡ true
unfolding repeated
prefix_repeated p rest [] [] good done = done
prefix_repeated p rest [] (c ∷ cs) good done = ground arith
prefix_repeated p rest (c ∷ run) tail good done = ground (arith, prefix_repeated p rest run tail)

full_match-Denotes : (ts : List Token) (path : Text) → full_match ts path ≡ true → Denotes ts path
unfolding full_match
full_match-Denotes [] [] e = refl
full_match-Denotes [] (c ∷ cs) e = absurd (ground arith)
full_match-Denotes (literal a ∷ ts) [] e = absurd (ground arith)
full_match-Denotes (literal a ∷ ts) (c ∷ cs) e =
    (cs, ap (λ x. x ∷ cs) (ground arith), full_match-Denotes ts cs (ground arith))
full_match-Denotes (in_segment ∷ ts) path e =
    let (run, tail, split, good, done) = repeated_prefix not_slash (full_match ts) path e in
    (run, tail, split, good, full_match-Denotes ts tail done)
full_match-Denotes (across_segments ∷ ts) path e =
    let (run, tail, split, good, done) = repeated_prefix not_newline (full_match ts) path e in
    (run, tail, split, good, full_match-Denotes ts tail done)

Denotes-full_match : (ts : List Token) (path : Text) → Denotes ts path → full_match ts path ≡ true
unfolding full_match
Denotes-full_match [] path d = rw d refl
Denotes-full_match (literal a ∷ ts) path (rest, e, d) =
    rw e (ground (arith, Denotes-full_match ts rest d))
Denotes-full_match (in_segment ∷ ts) path (run, rest, e, good, d) =
    rw e (prefix_repeated not_slash (full_match ts) run rest good (Denotes-full_match ts rest d))
Denotes-full_match (across_segments ∷ ts) path (run, rest, e, good, d) =
    rw e (prefix_repeated not_newline (full_match ts) run rest good (Denotes-full_match ts rest d))

-- What a pattern means, read off its characters: `**` is tried before `*`.
pub data Matches : Text → Text → Type 0 where
  ended : Matches [] []
  character :
      (c : ℕ) (pattern path : Text)
      → c ≢ asterisk
      → Matches pattern path
      → Matches (c ∷ pattern) (c ∷ path)
  one_asterisk :
      (pattern run path : Text)
      → ((more : Text) → pattern ≢ asterisk ∷ more)
      → ¬ (In slash run)
      → Matches pattern path
      → Matches (asterisk ∷ pattern) (run ++ path)
  two_asterisks :
      (pattern run path : Text)
      → ¬ (In newline run)
      → Matches pattern path
      → Matches (asterisk ∷ asterisk ∷ pattern) (run ++ path)

lacks : (a : ℕ) (run : Text) → all (λ c. not (c == a)) run ≡ true → ¬ (In a run)
lacks a [] e i = i
lacks a (c ∷ run) e i = ground (arith, lacks a run)

without : (a : ℕ) (run : Text) → ¬ (In a run) → all (λ c. not (c == a)) run ≡ true
without a [] n = refl
without a (c ∷ run) n = ground (arith, without a run)

expression_character :
    (c : ℕ) (pattern : Text)
    → c ≢ asterisk
    → expression (c ∷ pattern) ≡ literal c ∷ expression pattern
unfolding expression
expression_character c [] n = ground arith
expression_character c (d ∷ ds) n = ground arith

expression_single_star :
    (pattern : Text)
    → ((more : Text) → pattern ≢ asterisk ∷ more)
    → expression (asterisk ∷ pattern) ≡ in_segment ∷ expression pattern
unfolding expression
expression_single_star [] n = refl
expression_single_star (d ∷ ds) n = ground (arith, n ds)

expression_double_star :
    (pattern : Text)
    → expression (asterisk ∷ asterisk ∷ pattern) ≡ across_segments ∷ expression pattern
unfolding expression
expression_double_star pattern = refl

Matches-Denotes : (pattern path : Text) → Matches pattern path → Denotes (expression pattern) path
Matches-Denotes _ _ ended = unfold expression in refl
Matches-Denotes _ _ (character c pattern path n m) =
    rw (expression_character c pattern n) (path, refl, Matches-Denotes pattern path m)
Matches-Denotes _ _ (one_asterisk pattern run path n no_slash m) =
    rw (expression_single_star pattern n)
      (run, path, refl, without slash run no_slash, Matches-Denotes pattern path m)
Matches-Denotes _ _ (two_asterisks pattern run path no_newline m) =
    rw (expression_double_star pattern)
      (run, path, refl, without newline run no_newline, Matches-Denotes pattern path m)

-- One step of the way back, for each kind of the next part.
module _ (pattern path : Text)
    (further : (rest : Text) → Denotes (expression pattern) rest → Matches pattern rest) where
  character-Matches :
      (c : ℕ) → c ≢ asterisk → Denotes (expression (c ∷ pattern)) path → Matches (c ∷ pattern) path
  character-Matches c n d =
      let (rest, e, more) = subst (λ ts. Denotes ts path) (expression_character c pattern n) d in
      rw e (character c pattern rest n (further rest more))

  asterisk-Matches :
      ((more : Text) → pattern ≢ asterisk ∷ more)
      → Denotes (expression (asterisk ∷ pattern)) path
      → Matches (asterisk ∷ pattern) path
  asterisk-Matches n d =
      let (run, rest, e, good, more) =
        subst (λ ts. Denotes ts path) (expression_single_star pattern n) d in
      rw e (one_asterisk pattern run rest n (lacks slash run good) (further rest more))

  asterisks-Matches :
      Denotes (expression (asterisk ∷ asterisk ∷ pattern)) path
      → Matches (asterisk ∷ asterisk ∷ pattern) path
  asterisks-Matches d =
      let (run, rest, e, good, more) =
        subst (λ ts. Denotes ts path) (expression_double_star pattern) d in
      rw e (two_asterisks pattern run rest (lacks newline run good) (further rest more))

Denotes-Matches : (pattern path : Text) → Denotes (expression pattern) path → Matches pattern path
Denotes-Matches [] path d = unfold expression in subst (Matches []) (sym d) ended
Denotes-Matches (c ∷ []) path d = elim (ℕ_discrete c asterisk) [
  | yes q ↦
      subst (λ k. Matches (k ∷ []) path) (sym q)
        (asterisk-Matches [] path (Denotes-Matches []) (λ more q. ground arith)
          (subst (λ k. Denotes (expression (k ∷ [])) path) q d))
  | no n ↦ character-Matches [] path (Denotes-Matches []) c n d
]
Denotes-Matches (c ∷ d ∷ cs) path m = elim (ℕ_discrete c asterisk) [
  | yes q ↦
      subst (λ k. Matches (k ∷ d ∷ cs) path) (sym q)
        (elim (ℕ_discrete d asterisk) [
          | yes r ↦
              subst (λ k. Matches (asterisk ∷ k ∷ cs) path) (sym r)
                (asterisks-Matches cs path (Denotes-Matches cs) (
                  subst (λ k. Denotes (expression (asterisk ∷ k ∷ cs)) path) r
                    (subst (λ k. Denotes (expression (k ∷ d ∷ cs)) path) q m)))
          | no n ↦
              asterisk-Matches (d ∷ cs) path (Denotes-Matches (d ∷ cs)) (λ more e. n (ground arith))
                (subst (λ k. Denotes (expression (k ∷ d ∷ cs)) path) q m)
        ])
  | no n ↦ character-Matches (d ∷ cs) path (Denotes-Matches (d ∷ cs)) c n m
]

-- A pattern matches a path just if the path is a concatenation of what the characters of the pattern stand
-- for, from the left: `**` for a run without a newline, a `*` that no `*` follows for a run without a slash, and any
-- other character for itself.
pub path_matches_iff :
    (pattern path : Text) → (path_matches pattern path ≡ true) ↔ Matches pattern path
unfolding path_matches
path_matches_iff pattern path = (
  λ e. Denotes-Matches pattern path (full_match-Denotes (expression pattern) path e),
  λ m. Denotes-full_match (expression pattern) path (Matches-Denotes pattern path m),
)
