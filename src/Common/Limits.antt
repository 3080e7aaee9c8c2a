-- ===== src/Common/Limits.antt =====
-- `maelys_json_limits_resolve`: a zero field, or no limits at all, selects the default.
use maelys_json.Base.{
  ℕ, ◌+◌, ◌*◌, ◌/◌, ◌≤◌, ◌<◌, ◌≡◌, ◌||◌, Option, none, some, arith, ltb, leb, ◌==◌, if◌then◌else◌,
  Outcome, ok, err,
}
use maelys_json.Types.{
  Error, argument, Limits, size_max, default_maximum_bytes, default_maximum_depth,
  default_maximum_tokens, depth_ceiling,
}

abbrev choose : ℕ → ℕ → ℕ
choose requested fallback = if requested == 0 then fallback else requested

abbrev defaults : Limits
defaults = record {
  maximum_bytes = default_maximum_bytes;
  maximum_depth = default_maximum_depth;
  maximum_tokens = default_maximum_tokens;
}

-- The limits before the ceilings are checked.
unfoldable pub merged : Option Limits → Limits
merged none = defaults
merged (some r) = record {
  maximum_bytes = choose r.maximum_bytes default_maximum_bytes;
  maximum_depth = choose r.maximum_depth default_maximum_depth;
  maximum_tokens = choose r.maximum_tokens default_maximum_tokens;
}

unfoldable pub limits_resolve : Option Limits → Outcome Error Limits
limits_resolve requested =
    let result = merged requested in
    if ltb depth_ceiling result.maximum_depth
      || leb (size_max / 2) result.maximum_bytes
      || ltb (size_max / 256) result.maximum_tokens
    then err argument
    else ok result

-- What the rest of the library relies on.
pub record IsResolved (l : Limits) : Type 0 where
  pub bytes_pos : 0 < l.maximum_bytes
  pub depth_pos : 0 < l.maximum_depth
  pub tokens_pos : 0 < l.maximum_tokens
  pub depth_le : l.maximum_depth ≤ depth_ceiling
  pub bytes_lt : l.maximum_bytes * 2 + 2 ≤ size_max
  pub tokens_le : l.maximum_tokens * 256 ≤ size_max

merged_pos :
    (r : Option Limits)
    → (0 < (merged r).maximum_bytes)
      × (0 < (merged r).maximum_depth)
      × (0 < (merged r).maximum_tokens)
unfolding merged
merged_pos none = omega arith
merged_pos (some r) = ground arith

-- Limits that resolve are nonzero, the nesting stays within the ceiling, and the sizes are small
-- enough that an arena of the input, the tokens and one byte more never overflows a size_t.
pub limits_resolve-IsResolved :
    (r : Option Limits) {l : Limits} → limits_resolve r ≡ ok l → IsResolved l
unfolding limits_resolve
limits_resolve-IsResolved r h = ground (arith, merged_pos r)

-- Resolving resolved limits changes nothing, so `maelys_json_document_parse` may hand its own
-- resolved limits on to `maelys_json_document_parse_allocation_bound`.
pub limits_resolve_idem :
    (r : Option Limits) {l : Limits} → limits_resolve r ≡ ok l → limits_resolve (some l) ≡ ok l
unfolding limits_resolve merged
limits_resolve_idem none h = ground arith
limits_resolve_idem (some r) h = ground arith
