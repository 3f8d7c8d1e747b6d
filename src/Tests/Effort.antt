-- ===== src/Tests/Effort.antt =====
-- Efforts, at concrete budgets and names.
use pogu.Prelude.{◌≡◌, refl, none, some, codes, map, ascii_lower, eq_text, trim_space}
use pogu.Provider.Effort.{parse_thinking_suffix, xhigh}

suffix_is_read :
    parse_thinking_suffix (map ascii_lower) (λ raw. none) (codes "fast(Ultra) ")
    ≡ (codes "fast", some xhigh)
unfolding parse_thinking_suffix eq_text trim_space
suffix_is_read = refl
