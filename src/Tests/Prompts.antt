-- ===== src/Tests/Prompts.antt =====
-- A run of the injection of prompts.
use pogu.Prelude.{List, [], ◌∷◌, ◌++◌, Bool, true, Text, codes}
use pogu.Service.PromptRules.Resolve.{PromptSegment}
use pogu.Gateway.Prompts.{Added, prompts_of, inject_prompt_segments, inject_prompt_segments-Added}

-- A body as the prompts that it was given.
abbrev append_prompt : Bool → List (Text × Text) → Text → Text → List (Text × Text)
append_prompt anthropic body text label = body ++ (text, label) ∷ []

abbrev tone : PromptSegment
tone = record { rule_id = 4; rule_name = codes "tone"; text = codes "Be brief." }

inject_prompt_segments-Added_example :
    Added append_prompt true
      ([], [])
      (prompts_of (codes "Be kind.") Bool.false (tone ∷ []) (codes "Ug."))
      (inject_prompt_segments append_prompt true
        ([], [])
        (codes "Be kind.")
        Bool.false
        (tone ∷ [])
        (codes "Ug."))
inject_prompt_segments-Added_example =
    inject_prompt_segments-Added append_prompt true ([], []) (codes "Be kind.") Bool.false
      (tone ∷ []) (codes "Ug.")
