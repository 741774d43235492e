-- ===== src/Tests/Merging.antt =====
-- Merges of three arrivals, of which one fails.
use lura_p.Common.{
  Option, none, true, false, List, [], ◌∷◌, some, ◌≡◌, refl, is_some, all, All, String,
}
use lura_p.Value.{set, set_all, Value, number, field, end, get, IsMap}
use lura_p.Register.{register, get as find}
use lura_p.Proxy.Merging.Progress.{Progress, descend}
use lura_p.Proxy.Merging.Sequential.{
  Stage, replace, replace_from, propagate, run, start, sequential_merge,
}
use lura_p.Proxy.Merging.Sequential.Ends.{IsThrough, sequential_merge-IsThrough}
use lura_p.Proxy.Merging.Sequential.Registry.{IsHeld, propagate-IsHeld}
use lura_p.Proxy.{Response, Request, err_null_result}
use lura_p.Proxy.Merging.{
  bare, combine_data, combine_parts, Outcome, failed, part, new_merge_error, parallel_merge,
  merge_arrivals, merge, result, new_accumulator,
}
use lura_p.Proxy.Merging.Accumulate.{IsGood, is_complete_part, latest, get_payload}
use lura_p.Proxy.Merging.Parallel.{parallel_merge-errors, parallel_merge-combined}

abbrev user : Response
user = bare (field "id" (number "7") end) true

abbrev posts : Response
posts = bare (field "id" (number "8") (field "posts" (number "2") end)) true

abbrev arrived : List Outcome
arrived = part user ∷ failed err_null_result ∷ part posts ∷ []

abbrev merged : Response
merged = bare (field "id" (number "8") (field "posts" (number "2") end)) false

arrived-IsGood : All IsGood arrived
unfolding IsMap get
arrived-IsGood = (
  (field "id" (number "7") end, refl, (refl, tt)),
  (tt, ((field "id" (number "8") (field "posts" (number "2") end), refl, (refl, (refl, tt))), tt)),
)

parallel_merge-errors_example :
    (is_some (parallel_merge combine_data arrived).0 ≡ true)
    × ((parallel_merge combine_data arrived).1 ≡ some (err_null_result ∷ []))
unfolding new_merge_error
parallel_merge-errors_example = parallel_merge-errors arrived arrived-IsGood

arrived-merged : (parallel_merge combine_data arrived).0 ≡ some merged
unfolding parallel_merge combine_data combine_parts merge_arrivals merge result new_accumulator
    set_all set
arrived-merged = refl

parallel_merge-combined_example :
    (merged.is_complete ≡ all is_complete_part arrived)
    × ((k : String) → get_payload k merged.payload ≡ latest k arrived)
parallel_merge-combined_example =
    parallel_merge-combined arrived merged arrived-IsGood arrived-merged

abbrev other_order : List Outcome
other_order = failed err_null_result ∷ part user ∷ part posts ∷ []

abbrev request : Request
request = record {
  method = "GET";
  url = none;
  query = [];
  path = "/";
  body = none;
  params = ("Id", "7") ∷ [];
  headers = [];
}

abbrev stages : List Stage
stages =
    record { replacements = []; filter = none; proxy = λ r. part user }
    ∷ record {
      replacements =
          record {
            backend_index = 0;
            destination = "Resp0_id";
            source = "id" ∷ [];
            full_response = false;
          }
          ∷ [];
      filter = none;
      proxy = λ r. part posts;
    }
    ∷ []

abbrev sprint : Value → String
sprint v = "v"

abbrev read_all : String → Option String
read_all s = some s

abbrev joined : Response
joined = bare (field "id" (number "8") (field "posts" (number "2") end)) true

stages-joined : (sequential_merge sprint read_all stages request).0 ≡ some joined
unfolding sequential_merge run propagate replace replace_from descend register find combine_data
    combine_parts merge result new_accumulator get set set_all new_merge_error
stages-joined = refl

sequential_merge-IsThrough_example :
    IsThrough (run sprint read_all 0 stages (start sprint read_all 2 request))
    × ((sequential_merge sprint read_all stages request).1 ≡ none)
sequential_merge-IsThrough_example =
    sequential_merge-IsThrough sprint read_all stages request joined stages-joined refl

-- The loop after its first backend, with a value registered.
abbrev after_first : Progress
after_first = record {
  acc = record { pending = 1; partial = some user; errs = [] };
  parts = some user ∷ [];
  owner = some 0;
  shared = some 0;
  registry = ("Resp0_id", "7") ∷ [];
  request = request;
}

propagate-IsHeld_example : IsHeld "Resp0_id" "7" (
    propagate sprint read_all 1
      (record {
        backend_index = 0;
        destination = "Resp0_id";
        source = "id" ∷ [];
        full_response = false;
      }
        ∷ [])
      after_first)
unfolding find
propagate-IsHeld_example =
    propagate-IsHeld sprint read_all "Resp0_id" "7" 1
      (record {
        backend_index = 0;
        destination = "Resp0_id";
        source = "id" ∷ [];
        full_response = false;
      }
        ∷ [])
      after_first refl refl
