-- ===== src/Proxy/Modifiers/Applied.antt =====
-- What the modifiers do with a request and its response.
use lura_p.Common.{ℕ, ◌≡◌, ◌⊎◌, inl, inr, refl, String, List, [], ◌∷◌, Option, none, some}
use lura_p.Config.{ExtraConfig}
use lura_p.Proxy.{Request, Response}
use lura_p.Register.{Namespaced}
use lura_p.Proxy.Modifiers.{
  Outcome, returned, crashed, Next, Told, Modifier, Factory, Modified, stopped, through, go_on,
  apply_all, on_request, on_response, execute_request_modifiers, execute_response_modifiers,
  refused, asked_then, given_back, replied, asking, around, modifiers_of, plugin_middleware,
}

-- A modifier turns `x` into `z`, which is `x` where it answers a value of another type.
abbrev pub IsStep : {A : Type 0} → (Modifier → A → Modified (Option A)) → Modifier → A → A → Type 0
IsStep step f x z = (step f x ≡ through (some z)) ⊎ ((step f x ≡ through none) × (x ≡ z))

-- The modifiers turn `x` into `y`, each one what the one before it left.
abbrev pub IsThrough :
    {A : Type 0} → (Modifier → A → Modified (Option A)) → List Modifier → A → A → Type 0
IsThrough step [] x y = x ≡ y
IsThrough step (f ∷ fs) x y = (z : _) × IsStep step f x z × IsThrough step fs z y

-- One of them answers the error `e`, and those before it do not.
abbrev pub IsStopped :
    {A : Type 0} → (Modifier → A → Modified (Option A)) → List Modifier → A → String → Type 0
IsStopped step [] x e = ⊥
IsStopped step (f ∷ fs) x e =
    (step f x ≡ stopped e) ⊎ ((z : _) × IsStep step f x z × IsStopped step fs z e)

-- What becomes of what the next proxy answers, which has left `r` in the request.
abbrev pub IsReplied : ℕ → List Modifier → Request → Outcome → Outcome → Type 0
IsReplied call gs r crashed o = o ≡ crashed
IsReplied call gs r (returned resp (some e)) o = o ≡ returned resp (some e)
IsReplied call [] r (returned none none) o = o ≡ returned none none
IsReplied call (g ∷ gs) r (returned none none) o = o ≡ crashed
IsReplied call gs r (returned (some a) none) o =
    ((e : String) × IsStopped (on_response call) gs (a, some r) e × (o ≡ refused e))
    ⊎ ((t : Told) × IsThrough (on_response call) gs (a, some r) t × (o ≡ returned (some t.0) none))

abbrev pub IsModified : ℕ → List Modifier → List Modifier → Next → Request → Outcome → Type 0
IsModified call fs gs next r o =
    ((e : String) × IsStopped (on_request call) fs r e × (o ≡ refused e))
    ⊎ ((x : Request) × IsThrough (on_request call) fs r x
        × IsReplied call gs (next call x).1 (next call x).0 o)

-- The two ends of the loop.
abbrev Ends :
    {A : Type 0} → (Modifier → A → Modified (Option A)) → List Modifier → A → Modified A → Type 0
Ends step fs x (stopped e) = IsStopped step fs x e
Ends step fs x (through y) = IsThrough step fs x y

module _ {A : Type 0} (step : Modifier → A → Modified (Option A)) where
  after_step :
      (f : Modifier) (fs : List Modifier) (x z : A) (m : Modified A)
      → IsStep step f x z
      → Ends step fs z m
      → Ends step (f ∷ fs) x m
  after_step f fs x z (stopped e) s h = inr (z, s, h)
  after_step f fs x z (through y) s h = (z, s, h)

  by_step :
      (f : Modifier) (fs : List Modifier) (x : A) (m : Modified (Option A))
      → step f x ≡ m
      → ((y : A) → Ends step fs y (apply_all step fs y))
      → Ends step (f ∷ fs) x (go_on (λ y. apply_all step fs y) x m)
  by_step f fs x (stopped e) q rest = inl q
  by_step f fs x (through none) q rest =
      after_step f fs x x (apply_all step fs x) (inr (q, refl)) (rest x)
  by_step f fs x (through (some y)) q rest =
      after_step f fs x y (apply_all step fs y) (inl q) (rest y)

  ends_lem : (fs : List Modifier) (x : A) → Ends step fs x (apply_all step fs x)
  unfolding apply_all
  ends_lem [] x = refl
  ends_lem (f ∷ fs) x = by_step f fs x (step f x) refl (λ y. ends_lem fs y)

module _ (call : ℕ) (gs : List Modifier) (r : Request) where
  given_lem :
      (a : Response) (m : Modified Told)
      → Ends (on_response call) gs (a, some r) m
      → IsReplied call gs r (returned (some a) none) (given_back m)
  given_lem a (stopped e) h = inl (e, h, refl)
  given_lem a (through t) h = inr (t, h, refl)

replied_lem :
    (call : ℕ) (g : Modifier) (gs : List Modifier) (r : Request) (o : Outcome)
    → IsReplied call (g ∷ gs) r o (replied call (g ∷ gs) r o)
unfolding execute_response_modifiers
replied_lem call g gs r crashed = refl
replied_lem call g gs r (returned resp (some e)) = refl
replied_lem call g gs r (returned none none) = refl
replied_lem call g gs r (returned (some a) none) =
    given_lem call (g ∷ gs) r a (apply_all (on_response call) (g ∷ gs) (a, some r))
      (ends_lem (on_response call) (g ∷ gs) (a, some r))

unreplied_lem : (call : ℕ) (r : Request) (o : Outcome) → IsReplied call [] r o o
unreplied_lem call r crashed = refl
unreplied_lem call r (returned resp (some e)) = refl
unreplied_lem call r (returned none none) = refl
unreplied_lem call r (returned (some a) none) = inr ((a, some r), refl, refl)

module _ (call : ℕ) (next : Next) where
  asking_lem :
      (fs gs : List Modifier) (r : Request) (after : Request → Outcome) (m : Modified Request)
      → ((x : Request) → IsReplied call gs (next call x).1 (next call x).0 (after x))
      → Ends (on_request call) fs r m
      → IsModified call fs gs next r (asking after m)
  asking_lem fs gs r after (stopped e) told h = inl (e, h, refl)
  asking_lem fs gs r after (through x) told h = inr (x, h, told x)

  -- What follows the request modifiers.
  plain_lem : (x : Request) → IsReplied call [] (next call x).1 (next call x).0 (next call x).0
  plain_lem x = unreplied_lem call (next call x).1 (next call x).0

  then_lem :
      (g : Modifier) (gs : List Modifier) (x : Request)
      → IsReplied call (g ∷ gs) (next call x).1 (next call x).0 (asked_then call (g ∷ gs) next x)
  then_lem g gs x = replied_lem call g gs (next call x).1 (next call x).0

  around_lem :
      (fs gs : List Modifier) (r : Request)
      → IsModified call fs gs next r (around fs gs next call r)
  unfolding around execute_request_modifiers
  around_lem [] [] r = inr (r, refl, plain_lem r)
  around_lem [] (g ∷ gs) r = inr (r, refl, then_lem g gs r)
  around_lem (f ∷ fs) [] r =
      asking_lem (f ∷ fs) [] r (λ x. (next call x).0) (apply_all (on_request call) (f ∷ fs) r)
        plain_lem (ends_lem (on_request call) (f ∷ fs) r)
  around_lem (f ∷ fs) (g ∷ gs) r =
      asking_lem (f ∷ fs) (g ∷ gs) r (λ x. asked_then call (g ∷ gs) next x)
        (apply_all (on_request call) (f ∷ fs) r) (then_lem g gs)
        (ends_lem (on_request call) (f ∷ fs) r)

-- A call of a proxy in the plugins' middleware goes one of these ways, whichever modifiers the
-- configuration names: a request modifier answers an error, which is the error of the call; or the
-- request modifiers have changed the request in their order, and the next proxy was asked with what
-- they left. Of what it answers, an error goes back with the response as it is, and a panic is one of
-- the call; a response is changed by the response modifiers in their order, which see the request as
-- the next proxy has left it, or it is lost with the error of one of them; and no response without an
-- error is a panic where there are response modifiers.
pub plugin_middleware-IsModified :
    (reg : Namespaced Factory) (extra : ExtraConfig) (next : Next) (call : ℕ) (r : Request)
    → let ms = modifiers_of reg extra in
      IsModified call ms.requests ms.responses next r (plugin_middleware reg extra next call r)
unfolding plugin_middleware
plugin_middleware-IsModified reg extra next call r =
    let ms = modifiers_of reg extra in around_lem call next ms.requests ms.responses r
