-- ===== src/Tests/Graph.antt =====
-- A mutation with a default variable, and a variable that `New` cannot cut.
use lura_p.Common.{String, List, [], ◌∷◌, none, some, ◌≡◌, ◌↔◌, refl}
use lura_p.Value.{text, field, end, get, IsMap}
use lura_p.Proxy.{Request}
use lura_p.Graphql.{
  Platform, GraphqlRequest, Options, replacements, placeholder, from_body, add_defaults,
}
use lura_p.Graphql.Crashes.{HasBroken, replacements-HasBroken}
use lura_p.Graphql.Middleware.{generate, as_post, send}
use lura_p.Graphql.Sent.{IsMadeOf, IsCarriedBy, send-IsMadeOf}
use lura_p.Tests.Pipe.{request}

abbrev pub platform : Platform
platform = record {
  decode_options = λ v. none;
  decode_map = λ s. some (some (field "id" (text s) end));
  encode_request = λ gr. gr.query;
  encode_map = λ d. "{}";
  read_file = λ f. none;
  to_upper = λ s. s;
  to_lower = λ s. s;
  title = λ s. s;
}

abbrev opts : Options
opts = record {
  request = record {
    query = "mutation";
    operation_name = "";
    variables = field "id" (text "{id}") (field "kind" (text "x") end);
  };
  query_path = "";
  op_type = "mutation";
  method = "POST";
}

abbrev names : List (String × String)
names = ("id", "id") ∷ []

abbrev sent : Request
sent =
    as_post platform opts
      (record opts.request { variables = field "id" (text "") (field "kind" (text "x") end) })
      request

send-IsMadeOf_example :
    (gr : GraphqlRequest) × IsMadeOf platform opts request gr
    × IsCarriedBy platform opts gr request sent
unfolding IsMap get send generate as_post from_body add_defaults replacements placeholder
send-IsMadeOf_example = send-IsMadeOf platform opts names request sent (refl, (refl, tt)) refl refl

replacements-HasBroken_example :
    (replacements platform.title (field "id" (text "{}") end) ≡ none)
    ↔ HasBroken (field "id" (text "{}") end)
replacements-HasBroken_example = replacements-HasBroken platform.title (field "id" (text "{}") end)
