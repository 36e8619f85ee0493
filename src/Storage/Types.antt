-- ===== src/Storage/Types.antt =====
-- internal/storage/types.go: the artifacts and the plan. The kinds are strings, as in the source.
use ephemeral_action_runner.Shared.{ℕ, ◌*◌, ◌^◌, ℤ, pos, Str, codes, Bool, Option, List, [], ◌∷◌}

pub record Target : Type 0 where
  pub kind : Str
  pub locator : Str
  pub identity : Str
  pub fingerprint : Str
  pub matching : Str

pub record Ownership : Type 0 where
  pub kind : Str
  pub owner_id : Str
  pub evidence : Str

pub record Protection : Type 0 where
  pub kind : Str
  pub detail : Str

pub record Lease : Type 0 where
  pub id : Str
  pub expires_at : ℕ

pub record Artifact : Type 0 where
  pub id : Str
  pub provider : Str
  pub surface_id : Str
  pub kind : Str
  pub retention_group : Str
  pub target : Target
  pub ownership : Ownership
  pub size_bytes : ℕ
  pub created_at : ℕ
  pub last_used_at : ℕ
  pub superseded_at : Option ℕ
  pub current : Bool
  pub active : Bool
  pub lease : Option Lease
  pub protections : List Protection
  pub backend_id : Str
  pub custody : Str
  pub lifecycle_state : Str
  pub config_refs : List Str
  pub cleanup_error : Str

pub record Budget : Type 0 where
  pub kind : Str
  pub max_bytes : ℕ

-- The grace period in nanoseconds.
pub record Policy : Type 0 where
  pub grace_period : ℤ
  pub keep_previous : ℤ
  pub budgets : List Budget

pub data Action : Type 0 where
  keep protected report_only remove : Action

pub record Decision : Type 0 where
  pub artifact : Artifact
  pub action : Action
  pub reasons : List Str

abbrev pub match_exact : Str
match_exact = codes "exact"

abbrev pub ownership_exact : Str
ownership_exact = codes "exact"

abbrev pub gib : ℕ
gib = 2 ^ 30

abbrev pub buildkit_cache : Str
buildkit_cache = codes "buildkit-cache"

abbrev pub go_cache : Str
go_cache = codes "go-cache"

unfoldable pub default_policy : Policy
default_policy = record {
  grace_period = pos (168 * 3600 * 10 ^ 9);
  keep_previous = pos 0;
  budgets =
      record { kind = buildkit_cache; max_bytes = 20 * gib }
      ∷ (record { kind = go_cache; max_bytes = 10 * gib } ∷ []);
}
