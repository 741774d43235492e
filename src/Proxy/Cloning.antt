-- ===== src/Proxy/Cloning.antt =====
-- proxy/request.go: requests that point into a store, their clones, and their paths. Pointers of
-- different types do not alias, so the store has one part for each type; `next` is free in all of
-- them. The entries of a map are listed in the order of one iteration, and a map is allocated when
-- it is full, since nobody sees it before. The pool's buffer is empty again after a call.
pub mod Places
pub mod Copies
pub mod Shown
pub mod Apart
use Prim.Native.String
use lura_p.Common.{ℕ, suc, ◌==◌, if◌then◌else◌, String, List, [], ◌∷◌, Option, none, some, map}
use lura_p.Config.Uri.{◌<>◌}
use lura_p.Proxy.{Request}

pub record Store : Type 0 where
  pub next : ℕ
  -- []string
  pub slice : ℕ → List String
  -- map[string][]string, its values the places of slices
  pub lists : ℕ → List (String × ℕ)
  -- map[string]string
  pub texts : ℕ → List (String × String)
  -- io.ReadCloser: what is left to read
  pub reader : ℕ → String
  -- url.URL, as the text that `String` gives
  pub url : ℕ → String

-- The Request of the source; a nil map, reader or pointer is `none`.
pub record RequestRef : Type 0 where
  pub method : String
  pub url : Option ℕ
  pub query : Option ℕ
  pub path : String
  pub body : Option ℕ
  pub params : Option ℕ
  pub headers : Option ℕ

abbrev pub update : {A : Type 0} → (ℕ → A) → ℕ → A → ℕ → A
update f p v q = if p == q then v else f q

-- A nil map has no entries.
abbrev pub entries : {A : Type 0} → (ℕ → List A) → Option ℕ → List A
entries f none = []
entries f (some p) = f p

abbrev pub pointee : {A : Type 0} → (ℕ → A) → Option ℕ → Option A
pointee f none = none
pointee f (some p) = some (f p)

abbrev pub slice_of : (ℕ → List String) → String × ℕ → String × List String
slice_of f (k, p) = (k, f p)

-- What a reader of the request sees in the store.
abbrev pub view : Store → RequestRef → Request
view s r = record {
  method = r.method;
  url = pointee s.url r.url;
  query = map (slice_of s.slice) (entries s.lists r.query);
  path = r.path;
  body = pointee s.reader r.body;
  params = entries s.texts r.params;
  headers = map (slice_of s.slice) (entries s.lists r.headers);
}

abbrev pub new_slice : List String → Store → Store
new_slice xs s = record s { next = suc s.next; slice = update s.slice s.next xs }

abbrev pub new_lists : List (String × ℕ) → Store → Store
new_lists es s = record s { next = suc s.next; lists = update s.lists s.next es }

abbrev pub new_texts : List (String × String) → Store → Store
new_texts es s = record s { next = suc s.next; texts = update s.texts s.next es }

abbrev pub new_reader : String → Store → Store
new_reader t s = record s { next = suc s.next; reader = update s.reader s.next t }

abbrev pub new_url : String → Store → Store
new_url t s = record s { next = suc s.next; url = update s.url s.next t }

-- `url.Parse(r.URL.String())`, its error dropped; `reparse` is what it gives for the text.
unfoldable pub clone_url : (String → Option String) → Option ℕ → Store → Store × Option ℕ
clone_url reparse none s = (s, none)
clone_url reparse (some p) s = elim (reparse (s.url p)) [
  | none ↦ (s, none)
  | some u ↦ (new_url u s, some s.next)
]

-- `r.Clone()`
unfoldable pub clone : (String → Option String) → RequestRef → Store → Store × RequestRef
unfolding clone_url
clone reparse r s =
    let at : Store × Option ℕ = clone_url reparse r.url s in (at.0, record r { url = at.1 })

-- The loop of `CloneRequestHeaders`.
unfoldable pub copy_slices : List (String × ℕ) → Store → Store × List (String × ℕ)
copy_slices [] s = (s, [])
copy_slices ((k, p) ∷ es) s =
    let rest : Store × List (String × ℕ) = copy_slices es (new_slice (s.slice p) s) in
    (rest.0, (k, s.next) ∷ rest.1)

-- `CloneRequestHeaders(headers)`
unfoldable pub clone_request_headers : Option ℕ → Store → Store × ℕ
unfolding copy_slices
clone_request_headers headers s =
    let copied : Store × List (String × ℕ) = copy_slices (entries s.lists headers) s in
    (new_lists copied.1 copied.0, copied.0.next)

-- `CloneRequestParams(params)`
unfoldable pub clone_request_params : Option ℕ → Store → Store × ℕ
clone_request_params params s = (new_texts (entries s.texts params) s, s.next)

-- The end of `CloneRequest`: the body is read to its end, and both requests get a reader of what was
-- read.
unfoldable pub clone_body : Option ℕ → Store → Store × (Option ℕ × Option ℕ)
clone_body none s = (s, (none, none))
clone_body (some p) s =
    let content = s.reader p in
    let drained : Store = record s { reader = update s.reader p "" } in
    let original : Store = new_reader content drained in
    (new_reader content original, (some s.next, some original.next))

-- `CloneRequest(r)`: the store after it, `*r` after it, and the clone.
unfoldable pub clone_request :
    (String → Option String) → RequestRef → Store → Store × (RequestRef × RequestRef)
unfolding clone clone_request_headers clone_request_params clone_body
clone_request reparse r s =
    let cloned : Store × RequestRef = clone reparse r s in
    let headers : Store × ℕ = clone_request_headers r.headers cloned.0 in
    let params : Store × ℕ = clone_request_params r.params headers.0 in
    let bodies : Store × (Option ℕ × Option ℕ) = clone_body r.body params.0 in
    (
      bodies.0,
      (
        record r { body = bodies.1.0 },
        record cloned.1 { headers = some headers.1; params = some params.1; body = bodies.1.1 },
      ),
    )

-- `r.GeneratePath(URLPattern)`; `replace_all` is `bytes.ReplaceAll`.
unfoldable pub replace_params :
    (String → String → String → String) → List (String × String) → String → String
replace_params replace_all [] buff = buff
replace_params replace_all ((k, v) ∷ es) buff =
    replace_params replace_all es (replace_all buff ("{{." <> k <> "}}") v)

unfoldable pub generate_path :
    (String → String → String → String) → String → RequestRef → Store → RequestRef
unfolding replace_params
generate_path replace_all pattern r s = record r {
  path = replace_params replace_all (entries s.texts r.params) pattern;
}
