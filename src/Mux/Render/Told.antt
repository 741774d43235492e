-- ===== src/Mux/Render/Told.antt =====
-- What a client is told of a rendered response: its status, and whether it is complete.
use lura_p.Common.{
  ℕ, ◌≡◌, ◌≢◌, refl, ap, sym, subst, Bool, not, String, [], ◌∷◌, Option, none, some, ◌==◌, arith,
  Bool-cases, inl, inr, if◌then◌else◌,
}
use lura_p.Value.{Value}
use lura_p.Proxy.{Response}
use lura_p.Proxy.Filters.{Values, lookup, insert}
use lura_p.Proxy.Filters.Passed.{lookup-insert}
use lura_p.Mux.{completed_header}
use lura_p.Mux.Render.{
  Writer, Render, json_render, json_collection_render, string_render, noop_render, write_header,
  render, render_json, render_collection, render_string, render_noop, add_headers, copy_io,
  status_or_ok,
}

-- A writer to which nothing was written.
abbrev pub fresh : Values → Writer
fresh h = record { headers = h; status = none; body = "" }

-- The status is 200 and the header is kept.
abbrev pub IsKeptTold : Values → Writer → Type 0
IsKeptTold h w =
    (w.status ≡ some 200) × (lookup completed_header w.headers ≡ lookup completed_header h)

-- The status is the code, and any other than 200 is told to be incomplete.
abbrev pub IsFlagged : ℕ → Writer → Type 0
IsFlagged code w =
    (w.status ≡ some code) × (code ≢ 200 → lookup completed_header w.headers ≡ some ("false" ∷ []))

abbrev pub IsTold : Render → Option Response → Values → Writer → Type 0
IsTold json_render response h w = IsKeptTold h w
IsTold json_collection_render response h w = IsKeptTold h w
IsTold string_render response h w = IsKeptTold h w
IsTold noop_render none h w = IsFlagged 500 w
IsTold noop_render (some r) h w = r.metadata.status_code ≢ 0 → IsFlagged r.metadata.status_code w

content_type_kept :
    (t : String) (h : Values)
    → lookup completed_header (insert "Content-Type" (t ∷ []) h) ≡ lookup completed_header h
content_type_kept t h = lookup-insert "Content-Type" completed_header (t ∷ []) h

flagged :
    (h : Values)
    → lookup completed_header (insert completed_header ("false" ∷ []) h) ≡ some ("false" ∷ [])
flagged h = lookup-insert completed_header completed_header ("false" ∷ []) h

write_header-IsFlagged : (code : ℕ) (h : Values) → IsFlagged code (write_header code (fresh h))
unfolding write_header
write_header-IsFlagged code h = (
  refl,
  λ n. elim (Bool-cases (code == 200)) [
    | inl e ↦ absurd (n (ground arith))
    | inr e ↦ rw e (flagged h)
  ],
)

copy_io-IsFlagged :
    (code : ℕ) (w : Writer) (io : Option String) → IsFlagged code w → IsFlagged code (copy_io io w)
copy_io-IsFlagged code w none h = h
copy_io-IsFlagged code w (some s) h = (ap status_or_ok h.0, h.1)

-- Written on a writer to which nothing was written, a response in JSON, as a collection or as a text
-- has the status 200 and leaves the header that tells of its completeness as the handler has set it.
-- A response that is passed on has its own status, if that is not 0, and no response the status 500;
-- with any status but 200 the client is told that the response is incomplete, whatever the handler
-- has set.
pub render-IsTold :
    (marshal : Value → String) (canonical : String → String) (r : Render)
    (response : Option Response) (h : Values)
    → IsTold r response h (render marshal canonical r response (fresh h))
unfolding render render_json render_collection render_string render_noop
render-IsTold marshal canonical json_render none h = (refl, content_type_kept "application/json" h)
render-IsTold marshal canonical json_render (some r) h =
    (refl, content_type_kept "application/json" h)
render-IsTold marshal canonical json_collection_render none h =
    (refl, content_type_kept "application/json" h)
render-IsTold marshal canonical json_collection_render (some r) h =
    (refl, content_type_kept "application/json" h)
render-IsTold marshal canonical string_render none h = (refl, content_type_kept "text/plain" h)
render-IsTold marshal canonical string_render (some r) h = (refl, content_type_kept "text/plain" h)
render-IsTold marshal canonical noop_render none h =
    let headed =
      insert "X-Content-Type-Options" ("nosniff" ∷ [])
        (insert "Content-Type" ("text/plain; charset=utf-8" ∷ []) h) in
    let w = write_header 500 (fresh headed) in
    copy_io-IsFlagged 500 w (some "\n") (write_header-IsFlagged 500 headed)
render-IsTold marshal canonical noop_render (some r) h = λ n.
    let headed = add_headers canonical r.metadata.headers h in
    let code = r.metadata.status_code in
    elim (Bool-cases (r.metadata.status_code == 0)) [
      | inl e ↦ absurd (n (ground arith))
      | inr e ↦
          subst
            (λ (b : Bool).
              IsFlagged code
                (copy_io r.io (if not b then write_header code (fresh headed) else fresh headed)))
            (sym e)
            (copy_io-IsFlagged code (write_header code (fresh headed)) r.io
              (write_header-IsFlagged code headed))
    ]
