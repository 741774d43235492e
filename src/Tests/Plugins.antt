-- ===== src/Tests/Plugins.antt =====
-- Two plugins: one answers the request with another path, one refuses the response.
use lura_p.Common.{
  ◌+◌, ◌≡◌, true, false, String, [], ◌∷◌, none, some, length, str_eq, if◌then◌else◌, refl,
}
use lura_p.Value
use lura_p.Value.{Dict, text, array, obj, nil, item, end, field}
use lura_p.Config.{ExtraConfig}
use lura_p.Proxy.{err_other}
use lura_p.Register.{get_in}
use lura_p.Proxy.Modifiers.{
  of_request, of_response, failed, answered, Modifier, Next, returned, Factory, namespace,
  request_namespace, response_namespace, modifiers_of, plugin_middleware,
}
use lura_p.Proxy.Modifiers.Loading.{Registration, Opened, unopened, registerer, Loaded, load}
use lura_p.Proxy.Modifiers.Applied.{IsModified, plugin_middleware-IsModified}
use lura_p.Proxy.Modifiers.Loaded.{registrations_of, loaded_of, latest, load-IsLatest}
use lura_p.Tests.Pipe.{request}

abbrev moved : Modifier
moved call (of_request r) = answered (some (record r { path = "/moved" })) none
moved call (of_response t) = answered none none

abbrev refusing : Modifier
refusing call w = failed "refused"

abbrev moving : Registration
moving = record {
  name = "move";
  factory = λ (d : Dict). some moved;
  applies_to_request = true;
  applies_to_response = false;
}

abbrev refusal : Registration
refusal = record {
  name = "refuse";
  factory = λ (d : Dict). some refusing;
  applies_to_request = false;
  applies_to_response = true;
}

abbrev opener : String → Opened
opener name =
    if str_eq name "a.so" then registerer (moving ∷ refusal ∷ []) none else unopened "not found"

abbrev loaded : Loaded
loaded = load opener ("a.so" ∷ "b.so" ∷ []) []

load-IsLatest_example :
    let l = load opener ("a.so" ∷ "b.so" ∷ []) [] in
    let cs = registrations_of opener ("a.so" ∷ "b.so" ∷ []) in
    (get_in l.register request_namespace "move"
      ≡ latest
          (λ (c : Registration). c.applies_to_request)
          "move"
          cs
          (get_in {A = Factory} [] request_namespace "move"))
    × (get_in l.register response_namespace "move"
        ≡ latest
            (λ (c : Registration). c.applies_to_response)
            "move"
            cs
            (get_in {A = Factory} [] response_namespace "move"))
    × (l.loaded_plugins ≡ loaded_of opener ("a.so" ∷ "b.so" ∷ []))
    × (loaded_of opener ("a.so" ∷ "b.so" ∷ []) + length l.errors ≡ 2)
load-IsLatest_example = load-IsLatest opener ("a.so" ∷ "b.so" ∷ []) [] "move"

abbrev settings : ExtraConfig
settings =
    field namespace (obj (field "name" (array (item (text "move") (item (text "refuse") nil))) end))
      end

-- A proxy that writes the URL of its backend into the request.
abbrev reached : Next
reached call r = (
  returned
      (some record {
        payload = none;
        is_complete = true;
        metadata = record { headers = []; status_code = 200 };
        io = none;
      })
      none,
  record r { url = some "http://a" },
)

plugin_middleware-IsModified_example :
    let ms = modifiers_of loaded.register settings in
    IsModified 0 ms.requests ms.responses reached request
      (plugin_middleware loaded.register settings reached 0 request)
plugin_middleware-IsModified_example =
    plugin_middleware-IsModified loaded.register settings reached 0 request

-- Both modifiers are called.
refused_moved :
    plugin_middleware loaded.register settings reached 0 request
    ≡ returned none (some (err_other "refused"))
unfolding plugin_middleware load Value.get
refused_moved = refl
