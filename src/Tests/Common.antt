-- ===== src/Tests/Common.antt =====
-- src/common.c at concrete inputs.
use maelys_json.Base.{◌≡◌, refl, inr, ◌++◌, codes, true, ◌↔◌, err, ok, some}
use maelys_json.Types.{syntax, argument}
use maelys_json.Common.Number.{number_syntax}
use maelys_json.Common.Number.Grammar.{IsNumber, number_syntax_iff}
use maelys_json.Common.Position.{error_set, error_set-position}
use maelys_json.Common.Limits.{limits_resolve, merged, IsResolved, limits_resolve-IsResolved}

number_accepts : number_syntax (codes "-10.5e+3") ≡ true
unfolding number_syntax
number_accepts = refl

number_syntax_iff_example : (number_syntax (codes "-10.5e+3") ≡ true) ↔ IsNumber (codes "-10.5e+3")
number_syntax_iff_example = number_syntax_iff (codes "-10.5e+3")

error_set-position_example :
    error_set syntax (codes "{\n" ++ (codes "  " ++ codes "x}")) 4
    ≡ record { code = syntax; offset = 4; line = 2; column = 3 }
error_set-position_example =
    error_set-position syntax (codes "{\n") (codes "  ") (codes "x}") 4 (inr (codes "{", refl)) refl
      refl

too_deep :
    limits_resolve (some (record { maximum_bytes = 0; maximum_depth = 257; maximum_tokens = 0 }))
    ≡ err argument
unfolding limits_resolve merged
too_deep = refl

small_limits :
    limits_resolve (some (record { maximum_bytes = 100; maximum_depth = 0; maximum_tokens = 0 }))
    ≡ ok (record { maximum_bytes = 100; maximum_depth = 32; maximum_tokens = 8192 })
unfolding limits_resolve merged
small_limits = refl

limits_resolve-IsResolved_example :
    IsResolved (record { maximum_bytes = 100; maximum_depth = 32; maximum_tokens = 8192 })
limits_resolve-IsResolved_example =
    limits_resolve-IsResolved
      (some (record { maximum_bytes = 100; maximum_depth = 0; maximum_tokens = 0 })) small_limits
