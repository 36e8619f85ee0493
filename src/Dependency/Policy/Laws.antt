-- ===== src/Dependency/Policy/Laws.antt =====
-- internal/dependency/policy.go: what the policies that are parsed mean.
use ephemeral_action_runner.Shared.{
  ℕ, ℤ, pos, ◌<ℤ◌, ◌<◌, Str, true, false, Option, ok, ◌≡◌, refl, arith, ◌⊎◌, ◌≢◌, trim_space, some,
  codes, str_eq,
}
use ephemeral_action_runner.Dependency.Policy.{
  Policy, PolicyKind, valid, is_off, is_continuous, is_bounded, deadline, parse_policy,
  policy_string, effective_kind,
}

-- Of the three modes exactly the one that is meant.
pub data Means (p : Policy) : Type 0 where
  off : is_off p ≡ true → is_continuous p ≡ false → is_bounded p ≡ false → Means p
  continuous : is_off p ≡ false → is_continuous p ≡ true → is_bounded p ≡ false → Means p
  bounded :
      is_off p ≡ false
      → is_continuous p ≡ false
      → is_bounded p ≡ true
      → pos 0 <ℤ p.duration
      → Means p

-- A valid policy is in exactly one of the three modes, and has a positive duration if it is bounded.
pub valid-Means : (p : Policy) → valid p ≡ true → Means p
unfolding valid is_off is_continuous is_bounded
valid-Means p h = grind (arith, Means.off, Means.continuous, Means.bounded)

-- A valid policy gives an incident whose start is not zero a deadline exactly if it is bounded, and then
-- one that lies after the incident's start.
pub deadline_after_start :
    (p : Policy) (start : ℕ)
    → valid p ≡ true
    → start ≢ 0
    → ((is_bounded p ≡ true) × (start < deadline p start))
      ⊎ ((is_bounded p ≡ false) × (deadline p start ≡ 0))
unfolding valid deadline
deadline_after_start p start h n = ground arith

-- What is parsed is valid, and bounded only by a duration that stands in the text.
pub parse_policy-valid :
    (to_lower : Str → Str) (parse_duration : Str → Option ℤ) (text : Str) {p : Policy}
    → parse_policy to_lower parse_duration text ≡ ok p
    → (valid p ≡ true)
      × (is_bounded p ≡ true → parse_duration (trim_space (to_lower text)) ≡ some p.duration)
unfolding parse_policy valid is_bounded
parse_policy-valid to_lower parse_duration text {p} h =
    let v : valid p ≡ true = ground arith in
    let b : is_bounded p ≡ true → parse_duration (trim_space (to_lower text)) ≡ some p.duration =
      ground arith in
    (v, b)

-- What is documented of `strings.ToLower`, `time.ParseDuration` and `Duration.String`: the keywords
-- are lower case, and a positive duration's text starts with a digit and parses back.
pub record TextLaws (to_lower : Str → Str) (parse_duration : Str → Option ℤ) (format : ℤ → Str)
    : Type 0 where
  pub lower_off : to_lower (codes "off") ≡ codes "off"
  pub lower_continuous : to_lower (codes "continuous") ≡ codes "continuous"
  pub parses : (d : ℤ) → pos 0 <ℤ d → parse_duration (trim_space (to_lower (format d))) ≡ some d
  pub no_keyword :
      (d : ℤ)
      → pos 0 <ℤ d
      → (str_eq (trim_space (to_lower (format d))) (codes "") ≡ false)
        × (str_eq (trim_space (to_lower (format d))) (codes "off") ≡ false)
        × (str_eq (trim_space (to_lower (format d))) (codes "continuous") ≡ false)

off_word : trim_space (codes "off") ≡ codes "off"
unfolding trim_space
off_word = refl

continuous_word : trim_space (codes "continuous") ≡ codes "continuous"
unfolding trim_space
continuous_word = refl

module _ (to_lower : Str → Str) (parse_duration : Str → Option ℤ) (format : ℤ → Str)
    (laws : TextLaws to_lower parse_duration format) where
  abbrev Parsed : PolicyKind → ℤ → Str → Type 0
  Parsed k d text =
      parse_policy to_lower parse_duration text ≡ ok (record { kind = k; mode = k; duration = d })

  parse_off : Parsed PolicyKind.off (pos 0) (codes "off")
  unfolding parse_policy str_eq trim_space
  parse_off = rw (laws.lower_off, parse_policy)

  parse_continuous : Parsed PolicyKind.continuous (pos 0) (codes "continuous")
  unfolding parse_policy str_eq trim_space
  parse_continuous = rw (laws.lower_continuous, parse_policy)

  parse_bounded : (d : ℤ) → pos 0 <ℤ d → Parsed PolicyKind.bounded d (format d)
  unfolding parse_policy
  parse_bounded d h = ground (arith, laws.parses d h, laws.no_keyword d h)

  -- If the texts of durations obey their laws, the text of a valid policy parses to that policy, with
  -- both of its kinds written out.
  pub parse_policy-policy_string :
      (p : Policy) → valid p ≡ true → Parsed (effective_kind p) p.duration (policy_string format p)
  unfolding valid policy_string effective_kind
  parse_policy-policy_string p h =
      ground (arith, parse_off, parse_continuous, parse_bounded p.duration)
