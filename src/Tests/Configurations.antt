-- ===== src/Tests/Configurations.antt =====
-- A run of cpp/arcae/configuration.cc.
use casa_arrow.Base.{◌≡◌, [], ◌∷◌, if◌then◌else◌, ok}
use casa_arrow.Configuration.{KvMap, same_key, set_key, get_key}
use casa_arrow.Configuration.Entries.{get_key-set_key}

abbrev settings : KvMap
settings = ("validation-level", "full") ∷ []

get_key-set_key_example :
    get_key (set_key settings "blank" "1") "validation-level"
    ≡ (if same_key "validation-level" "blank" then ok "1" else get_key settings "validation-level")
get_key-set_key_example = get_key-set_key settings "blank" "1" "validation-level"
