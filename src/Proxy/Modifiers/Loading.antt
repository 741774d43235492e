-- ===== src/Proxy/Modifiers/Loading.antt =====
-- proxy/plugin/modifier.go and plugin/plugin.go: the plugins of a folder register their modifiers. What
-- the file system and the opened plugins do are arguments.
use lura_p.Common.{
  ℕ, suc, Bool, not, ◌&&◌, String, List, [], ◌∷◌, Option, none, some, if◌then◌else◌,
}
use lura_p.Common.Int.{pos}
use lura_p.Common.Decimal.{decimal_int}
use lura_p.Config.Uri.{◌<>◌}
use lura_p.Register.{Namespaced, register_in}
use lura_p.Proxy.Modifiers.{Factory, request_namespace, response_namespace}

-- A call of `RegisterModifierFunc`.
pub record Registration : Type 0 where
  pub name : String
  pub factory : Factory
  pub applies_to_request : Bool
  pub applies_to_response : Bool

-- What a plugin does: it cannot be opened, has no registerer or one of another type, or it calls
-- `RegisterModifier` and then may panic. A panic before the calls leaves none.
pub data Opened : Type 0 where
  unopened : String → Opened
  no_symbol : String → Opened
  unknown : Opened
  registerer : List Registration → Option String → Opened

-- `RegisterModifier(name, modifierFactory, appliesToRequest, appliesToResponse)`
unfoldable pub register_modifier : Registration → Namespaced Factory → Namespaced Factory
unfolding register_in
register_modifier c reg =
    let asked =
      if c.applies_to_request then register_in reg request_namespace c.name c.factory else reg in
    if c.applies_to_response then register_in asked response_namespace c.name c.factory else asked

unfoldable pub register_modifiers : List Registration → Namespaced Factory → Namespaced Factory
unfolding register_modifier
register_modifiers [] reg = reg
register_modifiers (c ∷ cs) reg = register_modifiers cs (register_modifier c reg)

-- `open(ctx, pluginName, rmf, logger)`: the register after it, and the error.
unfoldable pub open_plugin : Opened → Namespaced Factory → Namespaced Factory × Option String
unfolding register_modifiers
open_plugin (unopened e) reg = (reg, some e)
open_plugin (no_symbol e) reg = (reg, some e)
open_plugin unknown reg = (reg, some "modifier plugin loader: unknown type")
open_plugin (registerer cs e) reg = (register_modifiers cs reg, e)

pub record Loaded : Type 0 where
  pub register : Namespaced Factory
  pub loaded_plugins : ℕ
  pub errors : List String

-- One turn of the loop, in front of the later ones: the plugin with number `k`.
abbrev pub counted : ℕ → String → Option String → Loaded → Loaded
counted k name none l = record l { loaded_plugins = suc l.loaded_plugins }
counted k name (some e) l = record l {
  errors = ("plugin #" <> decimal_int (pos k) <> " (" <> name <> "): " <> e) ∷ l.errors;
}

-- The loop of `load`, from the number `k` on.
unfoldable pub load_from : (String → Opened) → ℕ → List String → Namespaced Factory → Loaded
unfolding open_plugin decimal_int
load_from opener k [] reg = record { register = reg; loaded_plugins = 0; errors = [] }
load_from opener k (name ∷ names) reg =
    let o : Namespaced Factory × Option String = open_plugin (opener name) reg in
    counted k name o.1 (load_from opener (suc k) names o.0)

-- `load(ctx, plugins, rmf, logger)`, whose error is nil where there are no errors.
unfoldable pub load : (String → Opened) → List String → Namespaced Factory → Loaded
unfolding load_from
load opener names reg = load_from opener 0 names reg

-- A directory entry: its name, and whether it is a directory.
abbrev pub Entry : Type 0
Entry = String × Bool

-- The loop of `Scan(folder, pattern)`, given `strings.Contains` and `filepath.Join`.
unfoldable pub matching :
    (String → String → Bool)
    → (String → String → String)
    → String
    → String
    → List Entry
    → List String
matching contains join folder pattern [] = []
matching contains join folder pattern ((name, is_dir) ∷ files) =
    let rest = matching contains join folder pattern files in
    if not is_dir && contains name pattern then join folder name ∷ rest else rest

-- The entries of a folder, or the error of `os.ReadDir`.
pub data Folder : Type 0 where
  unread : String → Folder
  entries : List Entry → Folder

-- `LoadWithLoggerAndContext(ctx, path, pattern, rmf, logger)`
unfoldable pub load_folder :
    (String → String → Bool)
    → (String → String → String)
    → (String → Opened)
    → String
    → String
    → Folder
    → Namespaced Factory
    → Loaded
unfolding load matching
load_folder contains join opener path pattern (unread e) reg = record {
  register = reg;
  loaded_plugins = 0;
  errors = e ∷ [];
}
load_folder contains join opener path pattern (entries files) reg =
    load opener (matching contains join path pattern files) reg
