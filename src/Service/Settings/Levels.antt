-- ===== src/Service/Settings/Levels.antt =====
-- internal/service/caveman.go: the levels of a skill, the prompt of a level, and the settings with the cached skill.
-- `range_order` is the order in which Go ranges over a map.
use pogu.Prelude.{
  ℕ, ◌-◌, ◌^◌, List, [], ◌∷◌, ◌++◌, Option, none, some, Bool, true, ◌&&◌, not, leb, ltb, map, any,
  where_, take, if◌then◌else◌, Text, codes, eq_text, trim_space,
}
use pogu.Service.Types.{Result, ok, err, validation, skill_failed, guard, or_fail, ◌>>=◌, ◌>>◌}
use pogu.Service.Settings.{Settings, setting, set_setting, flag_text}
use pogu.Service.Settings.Caveman.{
  CavemanSkill, CavemanLevelMeta, CavemanSettings, default_level, last_value, parse_caveman_skill,
}

unfoldable pub format_level_label : Text → Text
format_level_label id =
    if eq_text id (codes "full")
    then codes "Full (Classic Caveman)"
    else if eq_text id (codes "lite")
    then codes "Lite (Concise Professional)"
    else if eq_text id (codes "ultra")
    then codes "Ultra (Telegraphic)"
    else if eq_text id (codes "wenyan-lite")
    then codes "文言 Lite (Classical Chinese)"
    else if eq_text id (codes "wenyan-full")
    then codes "文言 Full (Classical Chinese)"
    else if eq_text id (codes "wenyan-ultra")
    then codes "文言 Ultra (Classical Chinese)"
    else capital id
  where
    capital : Text → Text
    capital [] = []
    capital (c ∷ s) = (if leb b'a' c && leb c b'z' then c - 32 else c) ∷ s

abbrev preferred_order : List Text
preferred_order =
    codes "full"
    ∷ codes "lite"
    ∷ codes "ultra"
    ∷ codes "wenyan-lite"
    ∷ codes "wenyan-full"
    ∷ codes "wenyan-ultra"
    ∷ []

abbrev level_meta : Text → Text → CavemanLevelMeta
level_meta id desc = record { id = id; label = format_level_label id; description = desc }

unfoldable pub preferred_metas : List Text → List (Text × Text) → List CavemanLevelMeta
unfolding last_value format_level_label
preferred_metas [] levels = []
preferred_metas (id ∷ ids) levels =
    let rest = preferred_metas ids levels in
    elim (last_value id levels) [ none ↦ rest | some desc ↦ level_meta id desc ∷ rest ]

unfoldable pub level_metas :
    (List (Text × Text) → List (Text × Text)) → CavemanSkill → List CavemanLevelMeta
unfolding preferred_metas format_level_label
level_metas range_order s =
    preferred_metas preferred_order s.levels
    ++ map (λ (l : Text × Text). level_meta l.0 l.1)
        (where_ (λ (l : Text × Text). not (any (eq_text l.0) preferred_order))
          (range_order s.levels))

-- The description of a level: its own, or that of the default level, or the fallback.
unfoldable pub level_description : CavemanSkill → Text → Text
unfolding last_value
level_description s level = elim (last_value level s.levels) [
  | some desc ↦ desc
  | none ↦
      let fallback = codes "Drop articles, fragments OK, short synonyms. Classic caveman." in
      elim (last_value default_level s.levels) [
        | none ↦ fallback
        | some desc ↦ if eq_text desc [] then fallback else desc
      ]
]

abbrev paragraph : Text → Text → Text
paragraph title body = title ++ 10 ∷ body ++ 10 ∷ 10 ∷ []

abbrev optional_paragraph : Text → Text → Text
optional_paragraph title body = if eq_text body [] then [] else paragraph title body

abbrev reasoning_note : Text
reasoning_note =
    codes
      "If internal reasoning or thinking is enabled, keep chain-of-thought thorough and deep; apply caveman compression only to the final emitted response."

unfoldable pub prompt_of : CavemanSkill → Text → Text
unfolding level_description
prompt_of s level =
    let lead =
      if eq_text s.leading_instruction []
      then codes "Respond terse like smart caveman. All technical substance stay. Only fluff die."
      else s.leading_instruction in
    trim_space (
      paragraph (codes "[Caveman Mode: " ++ level ++ codes "]") lead
      ++ paragraph (codes "Intensity (" ++ level ++ codes "):") (level_description s level)
      ++ optional_paragraph (codes "Rules:") s.rules
      ++ optional_paragraph (codes "Auto-Clarity:") s.auto_clarity
      ++ optional_paragraph (codes "Boundaries:") s.boundaries
      ++ codes "Reasoning/Thinking:"
      ++ 10 ∷ reasoning_note)

abbrev caveman_enabled : Text
caveman_enabled = codes "caveman_enabled"

abbrev caveman_level : Text
caveman_level = codes "caveman_level"

abbrev caveman_skill_raw : Text
caveman_skill_raw = codes "caveman_skill_raw"

abbrev caveman_synced_at : Text
caveman_synced_at = codes "caveman_synced_at"

abbrev level_or_default : Text → Text
level_or_default level = if eq_text level [] then default_level else level

-- The settings table and the cached skill.
pub record CavemanState : Type 0 where
  pub settings : Settings
  pub skill : Option CavemanSkill

module _ (to_lower : Text → Text) (default_md : Text) where
  unfoldable pub prompt_for_level : CavemanSkill → Text → Text
  unfolding prompt_of
  prompt_for_level s level =
      let normalized = to_lower (trim_space level) in
      prompt_of s (
        if eq_text normalized (codes "default") then default_level else level_or_default normalized)

  -- The skill that is stored, or the bundled one where it is empty or not parsed.
  unfoldable pub stored_skill : Settings → Option CavemanSkill
  unfolding setting parse_caveman_skill
  stored_skill t =
      let raw = setting t caveman_skill_raw in
      let default = parse_caveman_skill default_md in
      if eq_text (trim_space raw) []
      then default
      else elim (parse_caveman_skill raw) [ none ↦ default | some skill ↦ some skill ]

  unfoldable pub ensure_caveman_skill : CavemanState → Result (CavemanSkill × CavemanState)
  unfolding stored_skill
  ensure_caveman_skill st = elim st.skill [
    | some skill ↦ ok (skill, st)
    | none ↦ do
      skill ← or_fail (stored_skill st.settings) skill_failed
      ok (skill, record st { skill = some skill })
  ]

  unfoldable pub get_caveman_settings :
      (List (Text × Text) → List (Text × Text))
      → CavemanState
      → Result (CavemanSettings × CavemanState)
  unfolding ensure_caveman_skill setting level_metas
  get_caveman_settings range_order st = do
    (skill, st') ← ensure_caveman_skill st
    ok (
      record {
        enabled = eq_text (setting st.settings caveman_enabled) (codes "1");
        level = level_or_default (setting st.settings caveman_level);
        last_synced_at = setting st.settings caveman_synced_at;
        levels = level_metas range_order skill;
      },
      st',
    )

  abbrev known_level : CavemanSkill → Text → Bool
  known_level skill level = elim (last_value level skill.levels) [
    | some _ ↦ true
    | none ↦ eq_text level default_level
  ]

  -- The answer and the state that is left; the skill stays cached also where the level is refused.
  unfoldable pub set_caveman_settings :
      CavemanState → Bool → Text → Result (Unit {0}) × CavemanState
  unfolding ensure_caveman_skill set_setting last_value
  set_caveman_settings st enabled level =
      let level' = level_or_default (to_lower (trim_space level)) in
      elim (ensure_caveman_skill st) [
        | err e ↦ (err e, st)
        | ok (skill, st') ↦
            if known_level skill level'
            then (
              ok tt,
              record st' {
                settings =
                    set_setting caveman_level level'
                      (set_setting caveman_enabled (flag_text enabled) st'.settings);
              },
            )
            else (err validation, st')
      ]

  -- The status and the body of the response, as far as it is read; `now` is the time as a text.
  unfoldable pub sync_caveman_skill : CavemanState → Text → ℕ → Text → Result CavemanState
  unfolding parse_caveman_skill set_setting
  sync_caveman_skill st now status body = do
    guard (leb 200 status && ltb status 300) skill_failed
    let raw = take (2 ^ 20) body
    parsed ← or_fail (parse_caveman_skill raw) skill_failed
    ok (record {
      settings = set_setting caveman_synced_at now (set_setting caveman_skill_raw raw st.settings);
      skill = some parsed;
    })

  unfoldable pub get_caveman_prompt : CavemanState → Text → Result (Text × CavemanState)
  unfolding ensure_caveman_skill prompt_for_level
  get_caveman_prompt st level = do
    (skill, st') ← ensure_caveman_skill st
    ok (prompt_for_level skill level, st')

  unfoldable pub active_caveman_prompt : CavemanState → Result (Text × CavemanState)
  unfolding setting get_caveman_prompt
  active_caveman_prompt st =
      if eq_text (setting st.settings caveman_enabled) (codes "1")
      then get_caveman_prompt st (level_or_default (setting st.settings caveman_level))
      else ok ([], st)
