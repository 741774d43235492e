-- ===== src/Graphql/Middleware.antt =====
-- proxy/graphql.go: the middleware. The headers of a request are never the nil map here; a nil body is
-- `none`.
use Prim.Native.String
use lura_p.Common.{String, List, [], ◌∷◌, ◌++◌, Option, none, some, str_eq, if◌then◌else◌}
use lura_p.Common.Decimal.{decimal_int}
use lura_p.Common.Int.{pos}
use lura_p.Value.{Dict}
use lura_p.Proxy.{Request}
use lura_p.Proxy.Filters.{Values, insert, lookup}
use lura_p.Graphql.{
  Platform, GraphqlRequest, Options, Found, no_config_found, unreadable, options, get_options,
  replacements, extract, Extracted, failed, crashed, extracted, from_body, query_of,
}

-- `v.Add(k, s)` for each of the values.
abbrev pub values_or_none : Option (List String) → List String
values_or_none none = []
values_or_none (some vs) = vs

unfoldable pub add_all : Values → Values → Values
unfolding insert lookup
add_all [] query = query
add_all ((k, vs) ∷ q) query = add_all q (insert k (values_or_none (lookup k query) ++ vs) query)

-- How the middleware is built: it lets all requests pass, panics, or makes GraphQL requests.
pub data Middleware : Type 0 where
  fallback : Middleware
  broken : Middleware
  graphql : Options → List (String × String) → Middleware

abbrev pub with_replacements : Options → Option (List (String × String)) → Middleware
with_replacements opt none = broken
with_replacements opt (some rs) =
    if str_eq opt.op_type "mutation"
    then graphql opt rs
    else if str_eq opt.op_type "query"
    then graphql opt rs
    else fallback

abbrev pub built : Platform → Found → Middleware
built env no_config_found = fallback
built env unreadable = fallback
built env (options opt) = with_replacements opt (replacements env.title opt.request.variables)

-- `NewGraphQLMiddleware(logger, remote)`
unfoldable pub new_graphql_middleware : Platform → Dict → Middleware
unfolding get_options replacements
new_graphql_middleware env extra = built env (get_options env extra)

abbrev pub content : Option String → String
content none = ""
content (some s) = s

-- What the extractor makes of a request.
unfoldable pub generate :
    Platform → Options → List (String × String) → Request → Extracted GraphqlRequest
unfolding extract from_body
generate env opt rs req =
    if str_eq opt.op_type "mutation"
    then from_body env opt (content req.body)
    else extracted (extract opt rs req.params)

abbrev pub with_length : String → Request → Request
with_length size req = record req {
  headers =
      insert "Content-Type" ("application/json" ∷ [])
        (insert "Content-Length" (size ∷ []) req.headers);
}

-- The request that is sent on by GET.
unfoldable pub as_get : Platform → Options → GraphqlRequest → Request → Request
unfolding query_of add_all insert
as_get env opt gr req = record (with_length "0" req) {
  body = some "";
  method = opt.method;
  query = add_all (query_of env gr) req.query;
}

-- The request that is sent on by POST.
unfoldable pub as_post : Platform → Options → GraphqlRequest → Request → Request
unfolding decimal_int insert
as_post env opt gr req =
    let b = env.encode_request gr in
    record (with_length (decimal_int (pos (String.len b))) req) {
      body = some b;
      method = opt.method;
    }

abbrev pub as_method : Platform → Options → Request → Extracted GraphqlRequest → Extracted Request
as_method env opt req failed = failed
as_method env opt req crashed = crashed
as_method env opt req (extracted gr) =
    extracted (if str_eq opt.method "GET" then as_get env opt gr req else as_post env opt gr req)

-- The request that the next proxy gets.
unfoldable pub send : Platform → Middleware → Request → Extracted Request
unfolding generate as_get as_post
send env fallback req = extracted req
send env broken req = crashed
send env (graphql opt rs) req = as_method env opt req (generate env opt rs req)
