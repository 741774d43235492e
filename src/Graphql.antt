-- ===== src/Graphql.antt =====
-- transport/http/client/graphql/graphql.go and proxy/graphql.go: the GraphQL request that is made of a
-- request. What encoding/json and the file system answer are the fields of a `Platform`; a text's
-- characters are single bytes where the source cuts it. A nil map that is only read is the empty one.
pub mod Middleware
pub mod Variables
pub mod Defaults
pub mod Crashes
pub mod Carried
pub mod Sent
use Prim.Native.String
use Prim.Native.String.{[], ◌∷◌}
use Prim.Native.Char.{Char, code}
use lura_p.Common.{
  ℕ, suc, Bool, true, false, ◌&&◌, not, String, List, [], ◌∷◌, ◌++◌, Option, none, some, ◌>>=◌,
  str_eq, ◌==◌, if◌then◌else◌,
}
use lura_p.Common.Decimal.{decimal}
use lura_p.Value.{
  Value, null, bool, number, text, array, obj, Dict, end, field, get, set, set_all, len,
}
use lura_p.Config.Uri.{◌<>◌}
use lura_p.Proxy.{Request}
use lura_p.Proxy.Filters.{Values, insert}

-- graphql.Namespace
abbrev pub namespace : String
namespace = "github.com/devopsfaith/krakend/transport/http/client/graphql"

pub record GraphqlRequest : Type 0 where
  pub query : String
  pub operation_name : String
  pub variables : Dict

pub record Options : Type 0 where
  pub request : GraphqlRequest
  pub query_path : String
  pub op_type : String
  pub method : String

pub record Platform : Type 0 where
  -- `json.Marshal` and `json.Unmarshal` into the options; `none` is an error.
  pub decode_options : Value → Option Options
  -- `json.Unmarshal` into a map: an error, or a map, which is nil for `null`.
  pub decode_map : String → Option (Option Dict)
  -- `json.Marshal`
  pub encode_request : GraphqlRequest → String
  pub encode_map : Dict → String
  -- `os.ReadFile`; `none` is an error.
  pub read_file : String → Option String
  pub to_upper : String → String
  pub to_lower : String → String
  -- `title.String`
  pub title : String → String

-- Options, no configuration, or an error.
pub data Found : Type 0 where
  no_config_found : Found
  unreadable : Found
  options : Options → Found

-- The method and the type as `GetOptions` writes them.
unfoldable pub with_method : Platform → Options → Options
with_method env opt =
    let method = env.to_upper opt.method in
    record opt {
      method = if not (str_eq method "GET") && not (str_eq method "POST") then "POST" else method;
      op_type = env.to_lower opt.op_type;
    }

-- The query from its file.
abbrev pub with_query : Options → Option String → Found
with_query opt none = unreadable
with_query opt (some q) = options (record opt { request = record opt.request { query = q } })

unfoldable pub from_file : Platform → Options → Found
from_file env opt =
    if not (str_eq opt.query_path "")
    then with_query opt (env.read_file opt.query_path)
    else options opt

abbrev pub decoded : Platform → Option Options → Found
decoded env none = unreadable
decoded env (some opt) = from_file env (with_method env opt)

abbrev pub found : Platform → Option Value → Found
found env none = no_config_found
found env (some tmp) = decoded env (env.decode_options tmp)

-- `GetOptions(cfg)`
unfoldable pub get_options : Platform → Dict → Found
unfolding with_method from_file get
get_options env extra = found env (get namespace extra)

-- What a text is to `New`: the name that stands in its braces, no placeholder, or an index out of
-- range.
pub data Placeholder : Type 0 where
  named : String → Placeholder
  plain : Placeholder
  panicked : Placeholder

-- The text without its last character `}`, if that is the last.
unfoldable pub before_brace : String → Option String
before_brace [] = none
before_brace (c ∷ []) = if code c == 125 then some [] else none
before_brace (c ∷ d ∷ s) = elim (before_brace (d ∷ s)) [ none ↦ none | some t ↦ some (c ∷ t) ]

-- `title.String(val[1:2]) + val[2:len(val)-1]`, of what stands between the braces.
abbrev pub name_of : (String → String) → Option String → Placeholder
name_of title none = plain
name_of title (some []) = panicked
name_of title (some (c ∷ s)) = named (title (c ∷ []) <> s)

-- `val[0] == '{' && val[len(val)-1] == '}'` and what follows.
unfoldable pub placeholder : (String → String) → String → Placeholder
unfolding before_brace
placeholder title [] = panicked
placeholder title (c ∷ s) = if code c == 123 then name_of title (before_brace s) else plain

-- A round of the loop over the variables, before those that follow.
abbrev pub with_placeholder :
    String → Placeholder → Option (List (String × String)) → Option (List (String × String))
with_placeholder k (named name) rest = rest >>= (λ rs. some ((k, name) ∷ rs))
with_placeholder k plain rest = rest
with_placeholder k panicked rest = none

-- `v.(string)`
abbrev pub text_of : Value → Option String
text_of (text s) = some s
text_of _ = none

abbrev pub with_text :
    (String → String)
    → String
    → Option String
    → Option (List (String × String))
    → Option (List (String × String))
with_text title k none rest = rest
with_text title k (some val) rest = with_placeholder k (placeholder title val) rest

-- The loop of `New`: the variables with a placeholder and the names of their parameters; `none` is a
-- panic.
unfoldable pub replacements : (String → String) → Dict → Option (List (String × String))
unfolding placeholder
replacements title end = some []
replacements title (field k v d) = with_text title k (text_of v) (replacements title d)

-- `params[name]`
unfoldable pub param : String → List (String × String) → String
param k [] = ""
param k ((j, v) ∷ ps) = if str_eq j k then v else param k ps

-- The loop over the replacements.
unfoldable pub replace_all : List (String × String) → List (String × String) → Dict → Dict
unfolding param set
replace_all [] params d = d
replace_all ((k, name) ∷ rs) params d = replace_all rs params (set k (text (param name params)) d)

-- `paramExtractor(params)`
unfoldable pub extract : Options → List (String × String) → List (String × String) → GraphqlRequest
unfolding replace_all set_all
extract opt [] params = opt.request
extract opt (r ∷ rs) params = record opt.request {
  variables = replace_all (r ∷ rs) params (set_all opt.request.variables end);
}

-- The loop over the default variables in `fromBody`; `none` is a write to the nil map.
unfoldable pub add_defaults : Dict → Dict → Dict
unfolding get set
add_defaults end vars = vars
add_defaults (field k v d) vars =
    add_defaults d (elim (get k vars) [ none ↦ set k v vars | some w ↦ vars ])

abbrev pub merged : Dict → Option Dict → Option Dict
merged defaults (some vars) = some (add_defaults defaults vars)
merged end none = some end
merged (field k v d) none = none

-- What a call of an extractor gives: an error, a panic, or its result.
pub data Extracted (A : Type 0) : Type 0 where
  failed : Extracted A
  crashed : Extracted A
  extracted : A → Extracted A

abbrev pub with_variables : GraphqlRequest → Option Dict → Extracted GraphqlRequest
with_variables request none = crashed
with_variables request (some vars) = extracted (record request { variables = vars })

abbrev pub from_decoded : Options → Option (Option Dict) → Extracted GraphqlRequest
from_decoded opt none = failed
from_decoded opt (some vars) = with_variables opt.request (merged opt.request.variables vars)

-- `e.fromBody(r)`, of a body that can be read.
unfoldable pub from_body : Platform → Options → String → Extracted GraphqlRequest
unfolding add_defaults
from_body env opt body = from_decoded opt (env.decode_map body)

-- The values of `QueryFromBody` and `QueryFromParams`, with their order of additions.
unfoldable pub query_of : Platform → GraphqlRequest → Values
unfolding len
query_of env gr =
    (("query", gr.query ∷ []) ∷ [])
    ++ ((if str_eq gr.operation_name ""
          then []
          else (("operationName", gr.operation_name ∷ []) ∷ []))
        ++ (if len gr.variables == 0
            then []
            else (("variables", env.encode_map gr.variables ∷ []) ∷ [])))
