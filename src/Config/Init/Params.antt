-- ===== src/Config/Init/Params.antt =====
-- The parameters of a backend's URL pattern.
use lura_p.Common.{
  ℕ, suc, ◌≡◌, refl, ap, true, false, ◌||◌, eq_iff, eq_refl, string_lt, subst, arith, String, List,
  [], ◌∷◌, All, map, contains, ltb, length, if◌then◌else◌, Bool-cases, inl, inr, str_eq, ◌∙◌,
}
use lura_p.Config.{EndpointConfig, Backend}
use lura_p.Config.Fallible.{Result, failed, done, Ensures, Ensures-bind, wrong_number_of_params}
use lura_p.Config.Uri.{Platform, clean_path, ◌<>◌}
use lura_p.Config.Urls.{
  unique_from, unique_output, map_outputs, key_of, init_backend_url_mappings, insert_text,
  sort_texts, dedup,
}

module _ (env : Platform) where
  -- `o` refers to a part of an earlier response or is a parameter of the endpoint.
  abbrev pub IsDefined : List String → String → Type 0
  IsDefined inputs o = (env.is_sequential o || contains inputs o) ≡ true

  -- What the loop over the outputs ensures.
  abbrev AreKeys : List String → List String → String × List String → Type 0
  AreKeys inputs os r = All (IsDefined inputs) os × (r.1 ≡ map (key_of env) os)

  map_outputs-AreKeys :
      (e : EndpointConfig) (i : ℕ) (inputs outputs os : List String) (pattern : String)
      → Ensures (AreKeys inputs os) (map_outputs env e i inputs outputs os pattern)
  unfolding map_outputs
  map_outputs-AreKeys e i inputs outputs [] pattern = (tt, refl)
  map_outputs-AreKeys e i inputs outputs (o ∷ os) pattern =
      let next = env.replace_all pattern ("{" <> o <> "}") ("{{." <> key_of env o <> "}}") in
      elim (Bool-cases (env.is_sequential o || contains inputs o)) [
        | inl d ↦ rw (d) (
            Ensures-bind (AreKeys inputs os) (AreKeys inputs (o ∷ os))
              (map_outputs env e i inputs outputs os next) (λ r. done (r.0, key_of env o ∷ r.1))
              (map_outputs-AreKeys e i inputs outputs os next)
              (λ r h. ((d, h.0), ap (λ ks. key_of env o ∷ ks) h.1)))
        | inr d ↦ rw d tt
      ]

  -- The placeholders of a backend's pattern, each once.
  abbrev pub outputs_of : Backend → List String
  outputs_of b = (unique_output env (env.simple_keys (clean_path b.url_pattern))).0

  -- The placeholders that stand in a backend's pattern.
  abbrev pub placeholders : Backend → List String
  placeholders b = env.simple_keys (clean_path b.url_pattern)

  contains-insert_text :
      (x k : String) (xs : List String)
      → contains (insert_text x xs) k ≡ (str_eq x k || contains xs k)
  unfolding contains
  contains-insert_text x k [] = refl
  contains-insert_text x k (y ∷ ys) = elim (Bool-cases (string_lt y x)) [
    | inl e ↦ rw e (rw (contains-insert_text x k ys) (ground arith))
    | inr e ↦ rw e refl
  ]

  contains-sort_texts : (xs : List String) (k : String) → contains (sort_texts xs) k ≡ contains xs k
  unfolding contains
  contains-sort_texts [] k = refl
  contains-sort_texts (x ∷ xs) k =
      contains-insert_text x k (sort_texts xs) ∙ rw (contains-sort_texts xs k) refl

  contains-unique_from :
      (cur : String) (xs : List String) (k : String)
      → contains (unique_from env cur xs).0 k ≡ (str_eq cur k || contains xs k)
  unfolding contains unique_from
  contains-unique_from cur [] k = refl
  contains-unique_from cur (x ∷ xs) k = elim (Bool-cases (str_eq cur x)) [
    | inl e ↦
        let same = (eq_iff cur x).0 e in
        rw e (contains-unique_from cur xs k ∙ ground (arith, eq_iff cur x))
    | inr e ↦ rw e (rw (contains-unique_from x xs k) refl)
  ]

  contains-unique_output :
      (xs : List String) (k : String) → contains (unique_output env xs).0 k ≡ contains xs k
  unfolding unique_output contains
  contains-unique_output xs k = of_sorted (sort_texts xs) ∙ contains-sort_texts xs k
    where
      of_sorted :
          (sorted : List String)
          → contains
              (elim sorted as (λ _. List String × ℕ) [
                | [] ↦ ([], 0)
                | (x ∷ xs) ↦ unique_from env x xs
              ]).0
              k
            ≡ contains sorted k
      of_sorted [] = refl
      of_sorted (x ∷ xs) = contains-unique_from x xs k

  All-contains :
      (P : String → Type 0) (xs : List String) (k : String) → All P xs → contains xs k ≡ true → P k
  unfolding contains
  All-contains P [] k h e = absurd (let x : false ≡ true = e in cc)
  All-contains P (x ∷ xs) k h e = elim (Bool-cases (str_eq x k)) [
    | inl s ↦ subst P ((eq_iff x k).0 s) h.0
    | inr s ↦ All-contains P xs k h.1 (rw s at e)
  ]

  contains-All :
      (P : String → Type 0) (xs : List String)
      → ((k : String) → contains xs k ≡ true → P k)
      → All P xs
  unfolding contains
  contains-All P [] h = tt
  contains-All P (x ∷ xs) h = (h x (rw eq_refl), contains-All P xs (λ k c. h k (ground (arith, c))))

  -- `r` is `b` with its keys made of its placeholders, all of which are defined.
  abbrev pub IsMapping : List String → Backend → Backend → Type 0
  IsMapping inputs b r =
      All (IsDefined inputs) (placeholders b)
      × ((os : List String) × ((k : String) → contains os k ≡ contains (placeholders b) k)
          × (r.url_keys ≡ map (key_of env) os))
      × (r ≡ record b { url_pattern = r.url_pattern; url_keys = r.url_keys })

  outputs-IsMapping :
      (inputs : List String) (b : Backend) (r : String × List String)
      → AreKeys inputs (outputs_of b) r
      → IsMapping inputs b (record b { url_pattern = r.0; url_keys = r.1 })
  outputs-IsMapping inputs b r h =
      let same = λ (k : String). contains-unique_output (placeholders b) k in
      (
        contains-All (IsDefined inputs) (placeholders b)
            (λ k c. All-contains (IsDefined inputs) (outputs_of b) k h.0 (same k ∙ c)),
        (outputs_of b, same, h.1),
        refl,
      )

  -- Where the mapping of a backend's URL gives no error, every placeholder of the pattern refers to a part
  -- of a response or is an input parameter, the backend's keys are the keys of texts that are exactly
  -- the placeholders of the pattern, and only the pattern and the keys of the backend change.
  pub init_backend_url_mappings-IsMapping :
      (e : EndpointConfig) (i : ℕ) (inputs : List String) (b : Backend)
      → Ensures (IsMapping inputs b) (init_backend_url_mappings env e i inputs b)
  unfolding init_backend_url_mappings
  init_backend_url_mappings-IsMapping e i inputs b =
      let pattern = clean_path b.url_pattern in
      let outputs = outputs_of b in
      let size = (unique_output env (env.simple_keys pattern)).1 in
      let ip = sort_texts (dedup inputs) in
      let wrong : Result (String × List String) =
        failed (wrong_number_of_params e.endpoint e.method i ip outputs) in
      let mapped = map_outputs env e i inputs outputs outputs pattern in
      let keys : Ensures (AreKeys inputs outputs) (if ltb (length ip) size then wrong else mapped) =
        elim (Bool-cases (ltb (length ip) size)) [
          | inl h ↦ rw h tt
          | inr h ↦ rw h (map_outputs-AreKeys e i inputs outputs outputs pattern)
        ] in
      Ensures-bind (AreKeys inputs outputs) (IsMapping inputs b)
        (if ltb (length ip) size then wrong else mapped)
        (λ r. done (record b { url_pattern = r.0; url_keys = r.1 })) keys
        (λ r h. outputs-IsMapping inputs b r h)

  -- The distinct outputs that refer to no part of a response, the last one left out.
  abbrev pub count_own : List String → ℕ
  count_own [] = 0
  count_own (o ∷ []) = 0
  count_own (o ∷ p ∷ os) =
      let rest = count_own (p ∷ os) in if env.is_sequential o then rest else suc rest

  unique_from-eq-cons :
      (cur : String) (xs : List String)
      → (y : String) × (ys : List String) × ((unique_from env cur xs).0 ≡ y ∷ ys)
  unfolding unique_from
  unique_from-eq-cons cur [] = (cur, [], refl)
  unique_from-eq-cons cur (x ∷ xs) = elim (Bool-cases (str_eq cur x)) [
    | inl h ↦ rw h (unique_from-eq-cons cur xs)
    | inr h ↦ (cur, (unique_from env x xs).0, rw h refl)
  ]

  unique_from_size :
      (cur : String) (xs : List String)
      → (unique_from env cur xs).1 ≡ count_own (unique_from env cur xs).0
  unfolding unique_from
  unique_from_size cur [] = refl
  unique_from_size cur (x ∷ xs) =
      let (y, ys, e) = unique_from-eq-cons x xs in
      let rest : (unique_from env x xs).1 ≡ count_own (y ∷ ys) =
        unique_from_size x xs ∙ ap count_own e in
      elim (Bool-cases (str_eq cur x)) [
        | inl h ↦ rw h (unique_from_size cur xs)
        | inr h ↦ rw h (rw (e, rest) refl)
      ]

  -- The size that `uniqueOutput` returns is the number of its outputs that refer to no part of a
  -- response, of all but the last.
  pub unique_output_size :
      (output : List String) → (unique_output env output).1 ≡ count_own (unique_output env output).0
  unfolding unique_output
  unique_output_size output = sizes (sort_texts output)
    where
      sizes :
          (sorted : List String)
          → (elim sorted as (λ _. List String × ℕ) [
            | [] ↦ ([], 0)
            | (x ∷ xs) ↦ unique_from env x xs
          ]).1
            ≡ count_own
                (elim sorted as (λ _. List String × ℕ) [
                  | [] ↦ ([], 0)
                  | (x ∷ xs) ↦ unique_from env x xs
                ]).0
      sizes [] = refl
      sizes (x ∷ xs) = unique_from_size x xs
