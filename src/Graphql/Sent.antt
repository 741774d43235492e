-- ===== src/Graphql/Sent.antt =====
-- What a backend with GraphQL gets.
use Prim.Native.String
use mathlib.Core.Option
use lura_p.Common.{
  ◌≡◌, refl, ap, sym, subst, ◌∙◌, ◌⊎◌, Bool, true, false, String, List, [], ◌∷◌, ◌++◌, Option, none,
  some, str_eq, Bool-cases, inl, inr, if◌then◌else◌,
}
use lura_p.Common.Int.{pos}
use lura_p.Common.Decimal.{decimal_int}
use lura_p.Value.{Dict, end, field, get, IsMap}
use lura_p.Proxy.{Request}
use lura_p.Proxy.Filters.{lookup}
use lura_p.Graphql.Carried.{values_at, carried, values_at-carried, header_for, lookup-sized}
use lura_p.Graphql.{
  Platform, GraphqlRequest, Options, merged, add_defaults, extract, Extracted, failed, crashed,
  extracted, from_body, from_decoded, with_variables, replacements,
}
use lura_p.Graphql.Defaults.{or_else, get-add_defaults}
use lura_p.Graphql.Variables.{value_for, extract-value_for}
use lura_p.Graphql.Middleware.{graphql, content, generate, as_get, as_post, as_method, send}

-- The map that a body holds; the nil one has no entries.
abbrev pub entries_of : Option Dict → Dict
entries_of none = end
entries_of (some d) = d

-- The request of GraphQL has the query and the operation's name of the options. Of a mutation, its
-- variables are those of the body, and where that has none the defaults; of a query, they are the
-- defaults, with the parameters that their placeholders name.
abbrev pub IsMadeOf : Platform → Options → Request → GraphqlRequest → Type 0
IsMadeOf env opt req gr =
    (gr.query ≡ opt.request.query)
    × (gr.operation_name ≡ opt.request.operation_name)
    × (((str_eq opt.op_type "mutation" ≡ true)
          × ((vars : Option Dict) × (env.decode_map (content req.body) ≡ some vars)
              × ((j : String)
                  → get j gr.variables
                    ≡ or_else (get j (entries_of vars)) (get j opt.request.variables))))
        ⊎ ((str_eq opt.op_type "mutation" ≡ false)
            × ((j : String)
                → get j gr.variables
                  ≡ Option.map (value_for env.title req.params) (get j opt.request.variables))))

merged-get :
    (defaults : Dict) (vars : Option Dict) (d : Dict) (j : String)
    → merged defaults vars ≡ some d
    → get j d ≡ or_else (get j (entries_of vars)) (get j defaults)
unfolding get
merged-get defaults (some vars) d j e =
    let same : add_defaults defaults vars ≡ d = cc in
    ap (get j) (sym same) ∙ get-add_defaults j defaults vars
merged-get end none d j e = let same : end ≡ d = cc in ap (get j) (sym same)
merged-get (field k v rest) none d j e = cc

extract_text :
    (opt : Options) (rs params : List (String × String))
    → ((extract opt rs params).query ≡ opt.request.query)
      × ((extract opt rs params).operation_name ≡ opt.request.operation_name)
unfolding extract
extract_text opt [] params = (refl, refl)
extract_text opt (r ∷ rs) params = (refl, refl)

module _ (env : Platform) (opt : Options) (req : Request) (gr : GraphqlRequest) where
  by_merged :
      (mutation : str_eq opt.op_type "mutation" ≡ true) (vars d : Option Dict)
      → env.decode_map (content req.body) ≡ some vars
      → merged opt.request.variables vars ≡ d
      → with_variables opt.request d ≡ extracted gr
      → IsMadeOf env opt req gr
  by_merged mutation vars none decoded m e = cc
  by_merged mutation vars (some d) decoded m e =
      let same : record opt.request { variables = d } ≡ gr = cc in
      subst (IsMadeOf env opt req) same (
        refl,
        refl,
        inl (mutation, (vars, decoded, λ j. merged-get opt.request.variables vars d j m)),
      )

  by_decoded :
      (mutation : str_eq opt.op_type "mutation" ≡ true) (o : Option (Option Dict))
      → env.decode_map (content req.body) ≡ o
      → from_decoded opt o ≡ extracted gr
      → IsMadeOf env opt req gr
  by_decoded mutation none d e = cc
  by_decoded mutation (some vars) d e =
      by_merged mutation vars (merged opt.request.variables vars) d refl e

  module _ (rs : List (String × String)) (is_map : IsMap opt.request.variables)
      (found : replacements env.title opt.request.variables ≡ some rs) where
    generate-IsMadeOf : generate env opt rs req ≡ extracted gr → IsMadeOf env opt req gr
    unfolding generate from_body
    generate-IsMadeOf e = elim (Bool-cases (str_eq opt.op_type "mutation")) [
      | inl m ↦ by_decoded m (env.decode_map (content req.body)) refl (rw m at e)
      | inr q ↦
          let whole : extracted (extract opt rs req.params) ≡ extracted gr = rw q at e in
          let same : extract opt rs req.params ≡ gr = cc in
          subst (IsMadeOf env opt req) same (
            (extract_text opt rs req.params).0,
            (extract_text opt rs req.params).1,
            inr (q, λ j. extract-value_for env.title opt rs req.params j is_map found),
          )
    ]

-- A request that is sent by GET has its GraphQL request in the query: its query, the operation's name
-- and its variables, where there are some, behind what stood there under these names; and no body. One
-- that is sent by POST has it in the body, with its length.
abbrev pub IsCarriedBy : Platform → Options → GraphqlRequest → Request → Request → Type 0
IsCarriedBy env opt gr req sent =
    (sent.method ≡ opt.method)
    × (sent.path ≡ req.path)
    × (sent.url ≡ req.url)
    × (sent.params ≡ req.params)
    × (((str_eq opt.method "GET" ≡ true)
          × (sent.body ≡ some "")
          × ((k : String) → values_at k sent.query ≡ values_at k req.query ++ carried env gr k)
          × ((k : String) → lookup k sent.headers ≡ header_for "0" k (lookup k req.headers)))
        ⊎ ((str_eq opt.method "GET" ≡ false)
            × (sent.body ≡ some (env.encode_request gr))
            × (sent.query ≡ req.query)
            × ((k : String)
                → lookup k sent.headers
                  ≡ header_for (decimal_int (pos (String.len (env.encode_request gr)))) k
                      (lookup k req.headers))))

as_get-IsCarriedBy :
    (env : Platform) (opt : Options) (gr : GraphqlRequest) (req : Request)
    → str_eq opt.method "GET" ≡ true
    → IsCarriedBy env opt gr req (as_get env opt gr req)
unfolding as_get
as_get-IsCarriedBy env opt gr req g = (
  refl,
  refl,
  refl,
  refl,
  inl (g, refl, λ k. values_at-carried env gr req.query k, λ k. lookup-sized "0" k req.headers),
)

as_post-IsCarriedBy :
    (env : Platform) (opt : Options) (gr : GraphqlRequest) (req : Request)
    → str_eq opt.method "GET" ≡ false
    → IsCarriedBy env opt gr req (as_post env opt gr req)
unfolding as_post
as_post-IsCarriedBy env opt gr req g = (
  refl,
  refl,
  refl,
  refl,
  inr (
    g,
    refl,
    refl,
    λ k. lookup-sized (decimal_int (pos (String.len (env.encode_request gr)))) k req.headers,
  ),
)

-- By either method.
by_method :
    (env : Platform) (opt : Options) (gr : GraphqlRequest) (req : Request) (get_ : Bool)
    → str_eq opt.method "GET" ≡ get_
    → IsCarriedBy env opt gr req (if get_ then as_get env opt gr req else as_post env opt gr req)
by_method env opt gr req true g = as_get-IsCarriedBy env opt gr req g
by_method env opt gr req false g = as_post-IsCarriedBy env opt gr req g

by_generated :
    (env : Platform) (opt : Options) (req sent : Request) (o : Extracted GraphqlRequest)
    → ((gr : GraphqlRequest) → o ≡ extracted gr → IsMadeOf env opt req gr)
    → as_method env opt req o ≡ extracted sent
    → (gr : GraphqlRequest) × IsMadeOf env opt req gr × IsCarriedBy env opt gr req sent
by_generated env opt req sent failed h e = cc
by_generated env opt req sent crashed h e = cc
by_generated env opt req sent (extracted gr) h e =
    let chosen : Request =
      if str_eq opt.method "GET" then as_get env opt gr req else as_post env opt gr req in
    let same : chosen ≡ sent = cc in
    (
      gr,
      h gr refl,
      subst (IsCarriedBy env opt gr req) same
          (by_method env opt gr req (str_eq opt.method "GET") refl),
    )

-- Where the default variables are a map and `New` has found their placeholders, a request that the
-- middleware sends on has the method of the options, its own path, URL and parameters, a content type
-- and a length, all other headers as they were, and carries a GraphQL request: by GET in its query, under
-- "query", "operationName" and "variables" behind what stood there, with no body, and by POST in its
-- body, with the body's length and its own query. That has the query and the operation's name
-- of the options. The variables of a mutation are those of the body, and where that has none the
-- defaults; of a query they are the defaults, with the parameters that their placeholders name.
pub send-IsMadeOf :
    (env : Platform) (opt : Options) (rs : List (String × String)) (req sent : Request)
    → IsMap opt.request.variables
    → replacements env.title opt.request.variables ≡ some rs
    → send env (graphql opt rs) req ≡ extracted sent
    → (gr : GraphqlRequest) × IsMadeOf env opt req gr × IsCarriedBy env opt gr req sent
unfolding send
send-IsMadeOf env opt rs req sent m found e =
    by_generated env opt req sent (generate env opt rs req)
      (λ gr q. generate-IsMadeOf env opt req gr rs m found q) e
