-- ===== src/Dependency/Policy.antt =====
-- internal/dependency/policy.go. A duration is a signed number of nanoseconds; a time is a number of
-- nanoseconds, with 0 for Go's zero time.
pub mod Laws
use ephemeral_action_runner.Shared.{
  ℕ, ℤ, pos, Str, Bool, true, false, not, ◌&&◌, ◌||◌, ◌==◌, ltb_ℤ, leb_ℤ, add_ℤ, if◌then◌else◌,
  Result, ok, err, codes, str_eq, trim_space, Option, none, some,
}

-- The constants, the empty string, and every other string.
pub data PolicyKind : Type 0 where
  off continuous bounded unset unknown : PolicyKind

pub record Policy : Type 0 where
  pub kind : PolicyKind
  pub mode : PolicyKind
  pub duration : ℤ

abbrev pub is_unset : PolicyKind → Bool
is_unset PolicyKind.unset = true
is_unset _ = false

abbrev pub is_off_kind : PolicyKind → Bool
is_off_kind PolicyKind.off = true
is_off_kind _ = false

abbrev pub is_continuous_kind : PolicyKind → Bool
is_continuous_kind PolicyKind.continuous = true
is_continuous_kind _ = false

abbrev pub is_bounded_kind : PolicyKind → Bool
is_bounded_kind PolicyKind.bounded = true
is_bounded_kind _ = false

abbrev pub zero_duration : ℤ → Bool
zero_duration d = leb_ℤ d (pos 0) && leb_ℤ (pos 0) d

abbrev both : PolicyKind → ℤ → Policy
both k d = record { kind = k; mode = k; duration = d }

-- The second test of NewPolicy, on what the first one left.
known_policy : PolicyKind → ℤ → Policy
known_policy k d =
    if not (is_off_kind k) && not (is_continuous_kind k) && not (is_bounded_kind k)
    then both PolicyKind.off (pos 0)
    else both k d

unfoldable pub new_policy : PolicyKind → ℤ → Policy
unfolding known_policy
new_policy k d =
    if is_bounded_kind k && leb_ℤ d (pos 0)
    then known_policy PolicyKind.off (pos 0)
    else known_policy k d

abbrev valid_kind : PolicyKind → ℤ → Bool
valid_kind PolicyKind.off d = zero_duration d
valid_kind PolicyKind.continuous d = zero_duration d
valid_kind PolicyKind.bounded d = ltb_ℤ (pos 0) d
valid_kind PolicyKind.unset d = false
valid_kind PolicyKind.unknown d = false

unfoldable pub valid : Policy → Bool
valid p = valid_kind (if is_unset p.kind then p.mode else p.kind) p.duration

unfoldable pub effective_kind : Policy → PolicyKind
effective_kind p =
    if not (is_unset p.kind)
    then p.kind
    else if not (is_unset p.mode)
    then p.mode
    else PolicyKind.off

unfoldable pub is_off : Policy → Bool
unfolding effective_kind
is_off p = is_off_kind (effective_kind p)

unfoldable pub is_continuous : Policy → Bool
unfolding effective_kind
is_continuous p = is_continuous_kind (effective_kind p)

unfoldable pub is_bounded : Policy → Bool
unfolding effective_kind
is_bounded p = is_bounded_kind (effective_kind p) && ltb_ℤ (pos 0) p.duration

unfoldable pub deadline : Policy → ℕ → ℕ
unfolding is_bounded
deadline p start = if not (is_bounded p) || start == 0 then 0 else add_ℤ start p.duration

pub data PolicyError : Type 0 where
  no_duration not_positive : PolicyError

-- The texts of durations are `time.ParseDuration` and `Duration.String`, and the case of letters is
-- `strings.ToLower`.
module _ (to_lower : Str → Str) (parse_duration : Str → Option ℤ) where
  unfoldable pub parse_policy : Str → Result PolicyError Policy
  unfolding new_policy
  parse_policy text =
      let value = trim_space (to_lower text) in
      if str_eq value (codes "") || str_eq value (codes "off")
      then ok (new_policy PolicyKind.off (pos 0))
      else if str_eq value (codes "continuous")
      then ok (new_policy PolicyKind.continuous (pos 0))
      else (elim (parse_duration value) [
        | none ↦ err PolicyError.no_duration
        | some d ↦
            if leb_ℤ d (pos 0)
            then err PolicyError.not_positive
            else ok (new_policy PolicyKind.bounded d)
      ])

unfoldable pub policy_string : (ℤ → Str) → Policy → Str
unfolding effective_kind
policy_string format p = elim (effective_kind p) [
  | PolicyKind.continuous ↦ codes "continuous"
  | PolicyKind.bounded ↦ if ltb_ℤ (pos 0) p.duration then format p.duration else codes "off"
  | _ ↦ codes "off"
]
