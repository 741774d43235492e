-- ===== src/Config/Uri.antt =====
-- config/uri.go. What the regular expressions and functions of the standard library answer are the
-- fields of a `Platform`.
use Prim.Native.String
use Prim.Native.String.{[], ◌∷◌}
use Prim.Native.Char.{code}
use lura_p.Common.{Bool, String, List, [], ◌∷◌, ◌==◌, if◌then◌else◌, split, str_eq}
use lura_p.Config.Fallible.{Result, failed, done, each, invalid_host}

pub record Platform : Type 0 where
  -- The groups of each match of `hostPattern`: scheme, name, port.
  pub host_matches : String → List (String × String × String)
  -- The first group of each match of `endpointURLKeysPattern`, and of `simpleURLKeysPattern`.
  pub endpoint_keys : String → List String
  pub simple_keys : String → List String
  -- A match of `sequentialParamsPattern`, and of `invalidPattern`.
  pub is_sequential : String → Bool
  pub is_invalid : String → Bool
  -- `validateAddress`
  pub is_address : String → Bool
  -- `textproto.CanonicalMIMEHeaderKey`, `strings.ToLower`, the title case of a text
  pub canonical : String → String
  pub to_lower : String → String
  pub title : String → String
  -- `strings.ReplaceAll(s, old, new)`
  pub replace_all : String → String → String → String
  -- `RoutingPattern` is ColonRouterPatternBuilder.
  pub colon_pattern : Bool

infixl 60 ◌<>◌
abbrev pub ◌<>◌ : String → String → String
s <> t = String.◌++◌ s t

-- `u.SafeCleanHost(host)`
unfoldable pub safe_clean_host : Platform → String → Result String
safe_clean_host env host = elim (env.host_matches host) [
  | [] ↦ failed (invalid_host host)
  | (m ∷ ms) ↦ elim ms [
    | [] ↦
        let (scheme, name, port) = m in
        done ((if str_eq scheme "" then "http://" else scheme) <> name <> port)
    | (_ ∷ _) ↦ failed (invalid_host host)
  ]
]

-- `u.SafeCleanHosts(hosts)`
unfoldable pub safe_clean_hosts : Platform → List String → Result (List String)
unfolding safe_clean_host
safe_clean_hosts env hosts = each (λ _ host. safe_clean_host env host) 0 hosts

-- `u.CleanPath(path)`
unfoldable pub clean_path : String → String
clean_path [] = "/"
clean_path (c ∷ path) = if code c == 47 then "/" <> path else "/" <> (c ∷ path)

-- `strings.Join(parts, sep)`
abbrev pub join : String → List String → String
join sep [] = ""
join sep (s ∷ []) = s
join sep (s ∷ t ∷ rest) = s <> sep <> join sep (t ∷ rest)

-- One round of the loop of `GetEndpointPath`.
abbrev replace_param : Platform → String → String → String
replace_param env result param =
    let old = "{" <> param <> "}" in
    elim (split 63 result) [
      | [] ↦ result
      | (s ∷ rest) ↦ join "?" (env.replace_all s old (":" <> param) ∷ rest)
    ]

abbrev replace_params : Platform → String → List String → String
replace_params env result [] = result
replace_params env result (param ∷ params) =
    replace_params env (replace_param env result param) params

-- `u.GetEndpointPath(path, params)`
unfoldable pub get_endpoint_path : Platform → String → List String → String
get_endpoint_path env path params =
    if env.colon_pattern then replace_params env path params else path
