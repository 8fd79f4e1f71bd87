-- ===== src/Store/Registers.antt =====
-- src/db.rs: the statements on the tables `rules`, `agents` and `device_tokens`.
use mathlib.Core.Option
use sjbis.Prelude.{
  sort_by, String, Bool, Option, none, some, List, [], ◌∷◌, ◌++◌, if◌then◌else◌, ltb,
}
use sjbis.Models.Data.{Rule, Agent}
use sjbis.Models.Agents.{agent_color}
use sjbis.Store.Table.{get_row, has_row, insert_row, update_row, delete_row}
use sjbis.Store.Db.{Db}

abbrev pub rule_key : Rule → String
rule_key r = r.id

-- `none` where the id is taken.
unfoldable pub insert_rule : Rule → Db → Option Db
insert_rule r db = Option.map (λ rows. record db { rules = rows }) (insert_row rule_key r db.rules)

newer : Rule → Rule → Bool
newer a b = ltb b.created_at a.created_at

-- ORDER BY created_at DESC
unfoldable pub list_rules : Db → List Rule
unfolding newer sort_by
list_rules db = sort_by newer db.rules

unfoldable pub remove_rule : String → Db → Db
remove_rule id db = record db { rules = delete_row rule_key id db.rules }

abbrev pub agent_key : Agent → String
agent_key a = a.name

-- ON CONFLICT (name) DO UPDATE
unfoldable pub upsert_agent : Agent → Db → Db
unfolding has_row update_row
upsert_agent a db =
    if has_row agent_key a.name db.agents
    then record db { agents = update_row agent_key a.name (λ old. a) db.agents }
    else record db { agents = db.agents ++ (a ∷ []) }

new_agent : String → Agent
new_agent name = record { name = name; glyph = "◐"; color = agent_color name; kind = "unknown" }

unfoldable pub agent_or_new : Option Agent → String → Db → Db × Agent
unfolding new_agent
agent_or_new (some a) name db = (db, a)
agent_or_new none name db = (upsert_agent (new_agent name) db, new_agent name)

unfoldable pub get_or_create_agent : String → Db → Db × Agent
unfolding agent_or_new
get_or_create_agent name db = agent_or_new (get_row agent_key name db.agents) name db

abbrev pub token_key : String → String
token_key t = t

-- The device name and the time of the last contact are not kept.
unfoldable pub register_device_token : String → Db → Db
unfolding has_row
register_device_token t db =
    if has_row token_key t db.device_tokens
    then db
    else record db { device_tokens = db.device_tokens ++ (t ∷ []) }

unfoldable pub unregister_device_token : String → Db → Db
unregister_device_token t db = record db { device_tokens = delete_row token_key t db.device_tokens }
