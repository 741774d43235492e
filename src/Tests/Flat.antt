-- ===== src/Tests/Flat.antt =====
-- A flatmap formatter that deletes a path, over trees that only delete.
use lura_p.Common.{◌≡◌, ◌↔◌, String, List, [], ◌∷◌, Option, none, some, true}
use lura_p.Value.{Dict, end, field, text, null, delete}
use lura_p.Proxy.{Response}
use lura_p.Proxy.Formatter.Flatmap.{Trees, FlatmapFormatter, targeted, format_flat}
use lura_p.Proxy.Formatter.Flatmap.Short.{HasShort, IsKept, format_flat-HasShort}

abbrev pub del_at : List String → Dict → Dict
unfolding delete
del_at (k ∷ []) d = delete k d
del_at _ d = d

abbrev pub or_end : Option Dict → Dict
or_end none = end
or_end (some d) = d

abbrev pub trees : Trees Dict
trees = record {
  new_tree = λ d. some (or_end d);
  move = λ a b d. d;
  append = λ a b d. d;
  del = del_at;
  root = λ d. some d;
}

abbrev flattening : FlatmapFormatter
flattening = record {
  target = "";
  prefix = "posts";
  ops =
      record { kind = "del"; args = ("a" ∷ []) ∷ [] }
      ∷ record { kind = "move"; args = ("b" ∷ []) ∷ ("c" ∷ []) ∷ [] }
      ∷ [];
}

abbrev answer : Response
answer = record {
  payload = some (field "a" (text "x") (field "b" null end));
  is_complete = true;
  metadata = record { headers = []; status_code = 0 };
  io = none;
}

format_flat-HasShort_example :
    ((format_flat trees flattening answer ≡ none) ↔ (
      (t : Dict) × (trees.new_tree (targeted trees flattening answer) ≡ some t)
      × HasShort flattening.ops))
    × IsKept answer (format_flat trees flattening answer)
format_flat-HasShort_example = format_flat-HasShort trees flattening answer
