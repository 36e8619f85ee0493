-- ===== src/Storage/Capacity/Topology.antt =====
-- internal/storage/capacity.go: normalizeCapacityTopology. A time is in UTC here from the start.
use ephemeral_action_runner.Shared.{
  Str, codes, str_eq, str_lt, is_empty, trim_space, Bool, false, not, ◌||◌, List, [], ◌∷◌, ◌++◌,
  if◌then◌else◌, Result, ok, err, ◌>>=◌, ◌>>◌,
}
use ephemeral_action_runner.Shared.Sorting.{sort}
use ephemeral_action_runner.Storage.Capacity.Types.{Surface, CapacityDomain, CapacityError}

abbrev pub blank : Str → Bool
blank s = is_empty (trim_space s)

-- A key that a map was given before.
unfoldable pub seen : Str → List Str → Bool
seen k [] = false
seen k (x ∷ xs) = str_eq x k || seen k xs

unfoldable pub valid_surface_kind : Str → Bool
valid_surface_kind k =
    str_eq k (codes "host-filesystem")
    || (str_eq k (codes "docker-engine")
        || (str_eq k (codes "sandbox-template-cache") || str_eq k (codes "external")))

unfoldable pub has_domain : Str → List CapacityDomain → Bool
has_domain id [] = false
has_domain id (d ∷ ds) = str_eq d.id id || has_domain id ds

-- The loop over the given domains, with the identifiers and the identities that were seen.
unfoldable pub check_domains :
    List CapacityDomain → List Str → List Str → Result CapacityError (Unit {0})
unfolding seen valid_surface_kind
check_domains [] ids identities = ok tt
check_domains (d ∷ ds) ids identities =
    let rest = check_domains ds (d.id ∷ ids) identities in
    let rest_identified = check_domains ds (d.id ∷ ids) (d.identity ∷ identities) in
    if blank d.id
    then err CapacityError.blank_domain
    else if not (valid_surface_kind d.kind)
    then err CapacityError.invalid_domain_kind
    else if seen d.id ids
    then err CapacityError.duplicate_domain
    else if is_empty d.identity
    then rest
    else if seen d.identity identities
    then err CapacityError.duplicate_identity
    else rest_identified

unfoldable pub with_paths : Surface → Surface
with_paths s =
    let path = if is_empty s.path then s.location else s.path in
    record s { path = path; location = (if is_empty s.location then path else s.location) }

-- The domain of a surface that names none.
unfoldable pub own_domain : Surface → CapacityDomain
own_domain s = record {
  id = s.id;
  kind = s.kind;
  identity = codes "";
  path = s.path;
  provenance = s.provenance;
  confidence = s.confidence;
  capacity_unavailable_reason = codes "";
  capacity = s.capacity;
}

-- The domain that a surface is bound to, which is added if the surface is its own.
unfoldable pub bind_surface :
    Surface → List CapacityDomain → Result CapacityError (Surface × List CapacityDomain)
unfolding has_domain own_domain
bind_surface s ds =
    if not (is_empty s.domain_id)
    then if has_domain s.domain_id ds then ok (s, ds) else err CapacityError.unknown_domain
    else ok (
      record s { domain_id = s.id },
      (if has_domain s.id ds then ds else ds ++ own_domain s ∷ []),
    )

unfoldable pub check_surface : Surface → List Str → Result CapacityError (Unit {0})
unfolding seen valid_surface_kind
check_surface s ids =
    if blank s.id
    then err CapacityError.blank_surface
    else if not (valid_surface_kind s.kind)
    then err CapacityError.invalid_surface_kind
    else if seen s.id ids
    then err CapacityError.duplicate_surface
    else ok tt

unfoldable pub bind_surfaces :
    List Surface
    → List Str
    → List CapacityDomain
    → Result CapacityError (List Surface × List CapacityDomain)
unfolding check_surface bind_surface with_paths
bind_surfaces [] ids ds = ok ([], ds)
bind_surfaces (s ∷ ss) ids ds =
    check_surface s ids
    >> (bind_surface (with_paths s) ds >>= λ b.
        bind_surfaces ss (s.id ∷ ids) b.1 >>= λ r. ok (b.0 ∷ r.0, r.1))

abbrev pub surface_before : Surface → Surface → Bool
surface_before a b = str_lt a.id b.id

abbrev pub domain_before : CapacityDomain → CapacityDomain → Bool
domain_before a b = str_lt a.id b.id

unfoldable pub normalize_capacity_topology :
    List Surface → List CapacityDomain → Result CapacityError (List Surface × List CapacityDomain)
unfolding check_domains bind_surfaces sort
normalize_capacity_topology surfaces domains =
    check_domains domains [] []
    >> (bind_surfaces surfaces [] domains >>= λ r.
        ok (sort surface_before r.0, sort domain_before r.1))
