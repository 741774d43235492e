-- ===== src/Proxy/Formatter/Flatmap.antt =====
-- proxy/formatter.go flatmapFormatter and NewFlatmapMiddleware: operations on the flattened data. The
-- tree of github.com/krakend/flatmap is external: its type `T` and its operations are arguments.
pub mod Short
use lura_p.Common.{
  ℕ, ◌==◌, String, List, [], ◌∷◌, ◌++◌, Option, none, some, ◌>>=◌, str_eq, if◌then◌else◌, split,
  length,
}
use lura_p.Value.{Value, text, array, obj, Items, nil, item, Dict, end, field, get, as_dict}
use lura_p.Config.{ExtraConfig, Backend}
use lura_p.Proxy.{Request, Response, Error, namespace}
use lura_p.Proxy.Formatter.Entity.{
  entries, extract_target, EntityFormatter, new_plain_formatter, format,
}
use lura_p.Proxy.Modifiers.{Outcome, returned, crashed, Proxy, as_items}

pub record Trees (T : Type 0) : Type 0 where
  -- `tree.New(data)`; `none` is an error.
  pub new_tree : Option Dict → Option T
  pub move : List String → List String → T → T
  pub append : List String → List String → T → T
  pub del : List String → T → T
  -- `flatten.Get([]string{}).(map[string]interface{})`, where nil is `none`.
  pub root : T → Option Dict

pub record FlatmapOp : Type 0 where
  pub kind : String
  pub args : List (List String)

pub record FlatmapFormatter : Type 0 where
  pub target : String
  pub prefix : String
  pub ops : List FlatmapOp

-- `v.(string)`
abbrev as_text : Value → Option String
as_text (text s) = some s
as_text _ = none

-- The arguments: one that is no text stays nil.
abbrev pub arg_of : Option String → List String
arg_of none = []
arg_of (some t) = split b'.' t

unfoldable pub args_of : Items → List (List String)
args_of nil = []
args_of (item v vs) = arg_of (as_text v) ∷ args_of vs

abbrev pub all_args : Option Items → List (List String)
all_args none = []
all_args (some vs) = args_of vs

-- An operation, where `v` is a map whose type is a text.
unfoldable pub op_of : Value → Option FlatmapOp
unfolding args_of
op_of v = do
  m ← as_dict v
  t ← get "type" m >>= as_text
  some (record { kind = t; args = all_args (get "args" m >>= as_items) })

abbrev pub prepend : Option FlatmapOp → List FlatmapOp → List FlatmapOp
prepend none ops = ops
prepend (some op) ops = op ∷ ops

unfoldable pub ops_of : Items → List FlatmapOp
unfolding op_of
ops_of nil = []
ops_of (item v vs) = prepend (op_of v) (ops_of vs)

-- The formatter, where there are operations.
abbrev pub with_ops : String → String → List FlatmapOp → Option FlatmapFormatter
with_ops target group [] = none
with_ops target group (op ∷ ops) = some (record { target = target; prefix = group; ops = op ∷ ops })

-- `newFlatmapFormatter(cfg, target, group)`
unfoldable pub new_flatmap_formatter : ExtraConfig → String → String → Option FlatmapFormatter
unfolding ops_of
new_flatmap_formatter cfg target group = do
  v ← get namespace cfg
  e ← as_dict v
  vs ← get "flatmap_filter" e >>= as_items
  with_ops target group (ops_of vs)

-- The `EntityFormatter` of a backend.
pub data Formatter : Type 0 where
  flat : FlatmapFormatter → Formatter
  plain : EntityFormatter → Formatter

abbrev pub flat_or_plain : Backend → Option FlatmapFormatter → Formatter
flat_or_plain remote (some e) = flat e
flat_or_plain remote none = plain (new_plain_formatter remote)

-- `NewEntityFormatter(remote)`
unfoldable pub new_entity_formatter : Backend → Formatter
unfolding new_flatmap_formatter new_plain_formatter
new_entity_formatter remote =
    flat_or_plain remote (new_flatmap_formatter remote.extra_config remote.target remote.group)

module _ {T : Type 0} (trees : Trees T) where
  -- `op.Args[0]` and `op.Args[1]` are read out of range where there are fewer.
  abbrev pub with_two : (List String → List String → T → T) → List (List String) → T → Option T
  with_two f [] t = none
  with_two f (a ∷ []) t = none
  with_two f (a ∷ b ∷ args) t = some (f a b t)

  unfoldable pub del_all : List (List String) → T → T
  del_all [] t = t
  del_all (k ∷ ks) t = del_all ks (trees.del k t)

  -- The switch on the operation's type.
  unfoldable pub process_op : FlatmapOp → T → Option T
  unfolding del_all
  process_op op t =
      if str_eq op.kind "move"
      then with_two trees.move op.args t
      else if str_eq op.kind "append"
      then with_two trees.append op.args t
      else if str_eq op.kind "del"
      then some (del_all op.args t)
      else some t

  -- The loop of `processOps`; `none` is a panic.
  unfoldable pub process_all : List FlatmapOp → T → Option T
  unfolding process_op
  process_all [] t = some t
  process_all (op ∷ ops) t = process_op op t >>= (λ u. process_all ops u)

  -- `e.processOps(&entity)`, on its data.
  abbrev pub processed : List FlatmapOp → Option Dict → Option T → Option (Option Dict)
  processed ops d none = some d
  processed ops d (some t) = process_all ops t >>= (λ u. some (trees.root u))

  unfoldable pub process_ops : List FlatmapOp → Option Dict → Option (Option Dict)
  unfolding process_all
  process_ops ops d = processed ops d (trees.new_tree d)

  -- The data that the operations see.
  abbrev pub targeted : FlatmapFormatter → Response → Option Dict
  targeted e entity =
      if str_eq e.target "" then entity.payload else extract_target e.target entity.payload

  abbrev pub under_prefix : String → Response → Option Dict → Response
  under_prefix prefix entity d = record entity {
    payload = if str_eq prefix "" then d else some (field prefix (obj (entries d)) end);
  }

  -- `Format(entity)`; `none` is a panic.
  unfoldable pub format_flat : FlatmapFormatter → Response → Option Response
  unfolding process_ops extract_target
  format_flat e entity =
      process_ops e.ops (targeted e entity) >>= (λ d. some (under_prefix e.prefix entity d))

  -- `Format(entity)` of either; `none` is a panic.
  unfoldable pub format_with : Formatter → Response → Option Response
  unfolding format_flat format
  format_with (flat e) entity = format_flat e entity
  format_with (plain e) entity = format e entity

  abbrev pub formatted : Option Response → Outcome
  formatted none = crashed
  formatted (some r) = returned (some r) none

  -- What the middleware makes of what `next` returned; it reads a nil response, which is a panic.
  unfoldable pub flattened : FlatmapFormatter → Outcome → Outcome
  unfolding format_flat
  flattened e crashed = crashed
  flattened e (returned resp (some err)) = returned resp (some err)
  flattened e (returned none none) = crashed
  flattened e (returned (some resp) none) = formatted (format_flat e resp)

  abbrev pub flat_proxy : Option FlatmapFormatter → Proxy → Proxy
  flat_proxy none next call r = next call r
  flat_proxy (some e) next call r = flattened e (next call r)

  -- `NewFlatmapMiddleware(logger, cfg)`, of the endpoint's extra configuration.
  unfoldable pub flatmap_middleware : ExtraConfig → Proxy → Proxy
  unfolding new_flatmap_formatter flattened
  flatmap_middleware extra next = flat_proxy (new_flatmap_formatter extra "" "") next
