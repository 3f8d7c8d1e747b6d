-- ===== src/Tests.antt =====
-- Concrete states and inputs, and the theorems applied to them.
mod Routing
mod Gateway
mod PromptRules
mod Live
mod Effort
mod Streams
mod Sse
mod Auth
mod Usage
mod Prompts
mod Body
mod Keys
mod Settings
mod Client
mod Monitoring
use pogu.Prelude.{[], ◌∷◌, none, true, false, codes}
use pogu.Store.{
  Db, empty_db, ProviderRow, KeyRow, ModelRow, GroupRow, MemberRow, openai, first, round_robin,
}

abbrev pub openrouter : ProviderRow
openrouter = record {
  id = 1;
  name = codes "OpenRouter";
  type = openai;
  prefix = codes "or";
  base_url = codes "https://openrouter.ai/api";
  key_selection = round_robin;
  enabled = true;
}

abbrev pub key_a : KeyRow
key_a = record {
  id = 1;
  provider_id = 1;
  name = codes "Key 1";
  encrypted_secret = codes "x";
  secret_hash = codes "a";
  enabled = true;
  sort_order = 0;
  last_used_at = none;
}

abbrev pub key_b : KeyRow
key_b = record key_a { id = 2; name = codes "Key 2"; secret_hash = codes "b"; sort_order = 1 }

abbrev pub key_off : KeyRow
key_off = record key_a {
  id = 3;
  name = codes "Key 3";
  secret_hash = codes "c";
  enabled = false;
  sort_order = 2;
}

abbrev pub mimo : ModelRow
mimo = record { id = 1; provider_id = 1; name = codes "mimo-v2.5"; scheme = []; enabled = true }

abbrev pub glm : ModelRow
glm = record mimo { id = 2; name = codes "glm-5"; scheme = codes "anthropic" }

abbrev pub fast : GroupRow
fast = record { id = 1; name = codes "fast"; selection = first; enabled = true }

abbrev pub fast_glm : MemberRow
fast_glm = record { id = 1; group_id = 1; model_id = 2; position = 1; enabled = true }

abbrev pub fast_mimo : MemberRow
fast_mimo = record { id = 2; group_id = 1; model_id = 1; position = 0; enabled = true }

abbrev pub db : Db
db = record empty_db {
  providers = record { rows = openrouter ∷ []; last_id = 1 };
  keys = record { rows = key_b ∷ key_a ∷ key_off ∷ []; last_id = 3 };
  models = record { rows = mimo ∷ glm ∷ []; last_id = 2 };
  groups = record { rows = fast ∷ []; last_id = 1 };
  members = record { rows = fast_glm ∷ fast_mimo ∷ []; last_id = 2 };
}
