-- ===== src/Tests/Backends.antt =====
-- Two backends that answer wholly, the second one first.
use mathlib.Core.List.{Permᴰ}
use lura_p.Common.{refl, false, List, [], ◌∷◌, none, some, All}
use lura_p.Value
use lura_p.Value.{end}
use lura_p.Config.{Backend}
use lura_p.Proxy.{Error}
use lura_p.Proxy.Merging.{Outcome}
use lura_p.Proxy.Http.{HttpReply, Network}
use lura_p.Proxy.Stack.{new_stack}
use lura_p.Proxy.Formatter.{denylisting_filter, rec_delete, deny_tree}
use lura_p.Proxy.Formatter.Entity.{
  format_some, format_entries, apply_filter, rename_all, sanitize_mapping, format,
  new_plain_formatter,
}
use lura_p.Proxy.Formatter.Flatmap.{new_flatmap_formatter, new_entity_formatter, format_with}
use lura_p.Proxy.Merging.Backends.{Service, parallel}
use lura_p.Proxy.Merging.Backends.Whole.{answer_of, IsFull, IsMerged, parallel-IsMerged}
use lura_p.Tests.Asking.{pipe, network}
use lura_p.Tests.Pipe.{backend, request}

abbrev named : Value.Dict
named = Value.field "name" (Value.text "x") end

abbrev flipped : List Outcome → List Outcome
flipped (x ∷ y ∷ os) = y ∷ x ∷ os
flipped os = os

flipped-perm : (os : List Outcome) → Permᴰ os (flipped os)
flipped-perm [] = Permᴰ.nil
flipped-perm (x ∷ []) = Permᴰ.cons refl Permᴰ.nil
flipped-perm (x ∷ y ∷ os) = Permᴰ.swap refl refl

-- A backend that answers with a name.
abbrev found : HttpReply
found = record { status_code = 200; headers = []; body = some "{}"; path = "/posts" }

abbrev answering : Network Value.Dict
answering = record network {
  decode = λ s. some (Value.obj named);
  execute = λ n x. record { reply = found; err = none; ctx_err = none };
}

abbrev service : Service Value.Dict
service = record {
  pipe_of = λ b. pipe;
  network_of = λ b. answering;
  is_done = λ b. false;
  arrivals = flipped;
  message = λ (es : List Error). "errors";
}

-- Two backends of that kind.
abbrev decoding : Backend
decoding = record (backend end) { decoder = some (record { name = "json"; is_collection = false }) }

abbrev backends : List Backend
backends = decoding ∷ decoding ∷ []

full : All (λ b. IsFull (answer_of service 0 request b)) backends
unfolding new_stack new_entity_formatter new_flatmap_formatter new_plain_formatter format_with
    format format_some format_entries apply_filter denylisting_filter rec_delete deny_tree
    rename_all sanitize_mapping Value.get Value.IsMap
full = ((named, refl, (refl, tt)), ((named, refl, (refl, tt)), tt))

parallel-IsMerged_example :
    IsMerged service 0 request backends (parallel service backends 0 request)
parallel-IsMerged_example = parallel-IsMerged service backends 0 request flipped-perm full
