-- ===== src/Rules/RuleId/Pattern.antt =====
-- Which rule ids are accepted (pipelines/scoring/rules/models.py, validate_rule_id).
use fraudstream.Prelude.{
  ℕ, ◌≤◌, ◌≡◌, ◌⊎◌, inl, inr, ◌↔◌, refl, ap, true, List, [], ◌∷◌, ◌++◌, arith, leb→le, length,
  length-append, Bool-cases,
}
use fraudstream.Rules.RuleId.{is_alnum, is_id_char, tail_match, full_match, chomp, matches_id}

abbrev pub AllIdChars : List ℕ → Type 0
AllIdChars [] = Unit
AllIdChars (c ∷ s) = (is_id_char c ≡ true) × AllIdChars s

-- The ids that the error message asks for: 2 to 64 characters, letters, digits, hyphens and
-- underscores, with a letter or digit at both ends.
pub record IsRuleId (s : List ℕ) : Type 0 where
  pub first : ℕ
  pub middle : List ℕ
  pub last : ℕ
  pub spelled : s ≡ first ∷ (middle ++ last ∷ [])
  pub first_alnum : is_alnum first ≡ true
  pub middle_chars : AllIdChars middle
  pub last_alnum : is_alnum last ≡ true
  pub short : length middle ≤ 62

tail_match-append :
    (middle : List ℕ) (last : ℕ)
    → AllIdChars middle
    → is_alnum last ≡ true
    → tail_match (middle ++ last ∷ []) ≡ true
unfolding tail_match
tail_match-append [] last h k = k
tail_match-append (c ∷ []) last h k = ground arith
tail_match-append (c ∷ d ∷ s) last h k = ground (arith, tail_match-append (d ∷ s) last)

record Split (s : List ℕ) : Type 0 where
  middle : List ℕ
  last : ℕ
  spelled : s ≡ middle ++ last ∷ []
  middle_chars : AllIdChars middle
  last_alnum : is_alnum last ≡ true

tail_match-Split : (s : List ℕ) → tail_match s ≡ true → Split s
unfolding tail_match
tail_match-Split [] h = absurd (ground arith)
tail_match-Split (c ∷ []) h = record {
  middle = [];
  last = c;
  spelled = refl;
  middle_chars = tt;
  last_alnum = h;
}
tail_match-Split (c ∷ d ∷ s) h =
    let rest = tail_match-Split (d ∷ s) (ground arith) in
    record {
      middle = c ∷ rest.middle;
      last = rest.last;
      spelled = ap (λ t. c ∷ t) rest.spelled;
      middle_chars = (ground arith, rest.middle_chars);
      last_alnum = rest.last_alnum;
    }

pub full_match-IsRuleId : (s : List ℕ) → full_match s ≡ true → IsRuleId s
unfolding full_match
full_match-IsRuleId [] h = absurd (ground arith)
full_match-IsRuleId (c ∷ s) h =
    let split = tail_match-Split s (ground arith) in
    let within : length (c ∷ s) ≤ 64 = leb→le _ _ (ground arith) in
    record {
      first = c;
      middle = split.middle;
      last = split.last;
      spelled = ap (λ t. c ∷ t) split.spelled;
      first_alnum = ground arith;
      middle_chars = split.middle_chars;
      last_alnum = split.last_alnum;
      short = omega (
        arith,
        ap (λ (t : List ℕ). length t) split.spelled,
        length-append split.middle (split.last ∷ []),
      );
    }

pub IsRuleId-full_match : (s : List ℕ) → IsRuleId s → full_match s ≡ true
unfolding full_match
IsRuleId-full_match s r = rw r.spelled (
    ground (
      arith,
      r.first_alnum,
      tail_match-append r.middle r.last r.middle_chars r.last_alnum,
      length-append r.middle (r.last ∷ []),
      r.short,
    ))

-- A text is accepted exactly if it, or what is left without a newline that ends it, has 2 to 64
-- letters, digits, hyphens and underscores, with a letter or digit at both ends.
pub matches_id_iff : (s : List ℕ) → (matches_id s ≡ true) ↔ (IsRuleId s ⊎ IsRuleId (chomp s))
unfolding matches_id
matches_id_iff s = (
  λ h. elim (Bool-cases (full_match s)) [
    | inl e ↦ inl (full_match-IsRuleId s e)
    | inr e ↦ inr (full_match-IsRuleId (chomp s) (ground arith))
  ],
  λ r. elim r [
    | inl a ↦ ground (arith, IsRuleId-full_match s a)
    | inr b ↦ ground (arith, IsRuleId-full_match (chomp s) b)
  ],
)

chomp-newline : (s : List ℕ) → chomp (s ++ 10 ∷ []) ≡ s
unfolding chomp
chomp-newline [] = refl
chomp-newline (c ∷ []) = refl
chomp-newline (c ∷ d ∷ s) = ap (λ t. c ∷ t) (chomp-newline (d ∷ s))

-- Every rule id is accepted with a newline at its end too.
pub matches_id-newline : (s : List ℕ) → IsRuleId s → matches_id (s ++ 10 ∷ []) ≡ true
matches_id-newline s r = (matches_id_iff (s ++ 10 ∷ [])).1 (inr (rw chomp-newline r))
