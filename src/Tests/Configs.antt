-- ===== src/Tests/Configs.antt =====
-- The options of the OpenSearch extension.
use rust_sdk_mongodb_extensi.Prelude.{ℕ, String, ◌≡◌, refl, Option, none, some, List, [], ◌∷◌}
use rust_sdk_mongodb_extensi.Errors.{ok}
use rust_sdk_mongodb_extensi.Json.{null}
use rust_sdk_mongodb_extensi.Search.Fetch.{OpenSearchConfig}
use rust_sdk_mongodb_extensi.Search.Config.{OptionReader, parse_config}
use rust_sdk_mongodb_extensi.Search.Config.Endpoints.{IsUsable, parse_config-IsUsable}

-- A reader that takes every sequence of bytes for the same text.
abbrev reader : OptionReader
reader = record {
  from_utf8 = λ raw. ok "endpoints: http://a:9200, \"HTTPS://b:9200\"";
  from_str = λ s. ok null;
}

abbrev two : OpenSearchConfig
two = record { endpoints = "http://a:9200" ∷ "HTTPS://b:9200" ∷ [] }

configured : parse_config reader (some (1 ∷ [])) ≡ ok two
unfolding parse_config rust_sdk_mongodb_extensi.Prelude.Text.trim
configured = refl

parse_config-IsUsable_example : IsUsable ("http://a:9200" ∷ "HTTPS://b:9200" ∷ [])
parse_config-IsUsable_example = parse_config-IsUsable reader (some (1 ∷ [])) configured
