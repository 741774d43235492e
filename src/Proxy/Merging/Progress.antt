-- ===== src/Proxy/Merging/Progress.antt =====
-- proxy/merging.go sequentialMerge: the variables of its loop, and what is read of a response for a
-- parameter. `sprint` is `fmt.Sprintf("%v", v)`.
--
-- combineData writes into the map of its first part, so the accumulator's map is also the map of one
-- of the parts: `owner` is that part's index. `shared` is the index of the part that is itself the
-- accumulator's response, which it is until a second one is merged.
use Prim.Native.String
use lura_p.Common.{
  ℕ, zero, suc, Bool, true, false, String, List, [], ◌∷◌, Option, none, some, ◌>>=◌, ◌==◌,
  if◌then◌else◌,
}
use lura_p.Value.{Value, bool, text, array, Items, nil, item, Dict, end, get, as_dict}
use lura_p.Register.{register, get as find}
use lura_p.Proxy.{Response, Request}
use lura_p.Proxy.Merging.{Accumulator}

-- sequentialBackendReplacement
pub record Replacement : Type 0 where
  pub backend_index : ℕ
  pub destination : String
  pub source : List String
  pub full_response : Bool

-- The variables of the loop.
pub record Progress : Type 0 where
  pub acc : Accumulator
  pub parts : List (Option Response)
  pub owner : Option ℕ
  pub shared : Option ℕ
  pub registry : List (String × String)
  pub request : Request

abbrev pub is_at : Option ℕ → ℕ → Bool
is_at none i = false
is_at (some j) i = j == i

abbrev pub payload_of : Option Response → Option Dict
payload_of none = none
payload_of (some r) = r.payload

abbrev or_end : Option Dict → Dict
or_end none = end
or_end (some d) = d

-- The map behind `parts[j].Data`, for the owner, the accumulator's response and the part's own map.
abbrev pub data_at : Option ℕ → ℕ → Option Response → Option Dict → Dict
data_at owner j partial payload = or_end (if is_at owner j then payload_of partial else payload)

abbrev pub data_of : Progress → ℕ → Response → Dict
data_of st j p = data_at st.owner j st.acc.partial p.payload

-- Whose map the accumulator has after the response of backend `i`, given whose it had, its map and the
-- response's.
abbrev pub owner_from : ℕ → Option ℕ → Option Dict → Option Dict → Option ℕ
owner_from i owner (some d) payload = owner
owner_from i owner none none = none
owner_from i owner none (some d) = some i

-- The loop over all but the last key of a source: where it breaks off, it leaves the map as it is.
unfoldable pub descend : List String → Dict → Dict
descend [] d = d
descend (k ∷ []) d = d
descend (k ∷ j ∷ keys) d = elim (get k d >>= as_dict) [
  | none ↦ d
  | some clean ↦ descend (j ∷ keys) clean
]

-- The last key; `strings.Split` never gives an empty list.
abbrev pub last_key : List String → String
last_key [] = ""
last_key (k ∷ []) = k
last_key (k ∷ j ∷ keys) = last_key (j ∷ keys)

-- The elements with a comma after each but the last.
abbrev pub join_items : (Value → String) → Items → String
join_items sprint nil = ""
join_items sprint (item v nil) = sprint v
join_items sprint (item v (item w vs)) =
    String.◌++◌ (sprint v) (String.◌++◌ "," (join_items sprint (item w vs)))

-- The switch on the type of the value.
abbrev pub param_of : (Value → String) → Value → String
param_of sprint (array vs) = join_items sprint vs
param_of sprint (text s) = s
param_of sprint (bool true) = "true"
param_of sprint (bool false) = "false"
param_of sprint v = sprint v

abbrev pub set_param : String → String → Request → Request
set_param k v request = record request { params = register request.params k v }

-- `request.Params[destination] = v; sequentialMergeRegistry[destination] = v`
abbrev pub assign : String → String → Progress → Progress
assign k v st = record st {
  request = set_param k v st.request;
  registry = register st.registry k v;
}

abbrev drain : Response → Response
drain p = record p { io = some "" }

abbrev drain_at : ℕ → List (Option Response) → List (Option Response)
drain_at j [] = []
drain_at zero (none ∷ ps) = none ∷ ps
drain_at zero (some p ∷ ps) = some (drain p) ∷ ps
drain_at (suc j) (p ∷ ps) = p ∷ drain_at j ps

abbrev drain_partial : Option Response → Option Response
drain_partial none = none
drain_partial (some p) = some (drain p)

-- `io.ReadAll(parts[j].Io)` leaves nothing to read behind.
abbrev pub drained : ℕ → Progress → Progress
drained j st = record st {
  parts = drain_at j st.parts;
  acc = record st.acc {
    partial = if is_at st.shared j then drain_partial st.acc.partial else st.acc.partial;
  };
}

abbrev pub found_in : List (String × String) → String → String
found_in registry k = elim (find registry k) [ none ↦ "" | some v ↦ v ]
