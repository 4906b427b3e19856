-- ===== src/Select/Chosen.antt =====
-- Which items are selected.
use qa_agent.Prelude.{String, Bool, true, not, ◌&&◌, List, [], ◌∷◌, any, str_eq}
use qa_agent.Select.{ScenarioCatalogItem}

abbrev pub has_id : String → ScenarioCatalogItem → Bool
has_id k i = str_eq k i.id

-- Whether no two items have one id.
abbrev pub distinct_ids : List ScenarioCatalogItem → Bool
distinct_ids [] = true
distinct_ids (i ∷ items) = not (any (has_id i.id) items) && distinct_ids items
