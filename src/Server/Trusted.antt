-- ===== src/Server/Trusted.antt =====
-- Whose certificates a server trusts, and a client.
use lura_p.Common.{
  ◌≡◌, refl, subst, ◌↔◌, ◌⊎◌, inl, inr, Bool, true, false, String, List, [], ◌∷◌, ◌++◌, Option,
  none, some, not, if◌then◌else◌,
}
use lura_p.Config.{Tls}
use lura_p.Server.{
  Machine, TlsConfig, append_file, append_files, load_cert_pool, pool_or_new, base_config,
  mtls_config, public_keys, enabled_config, parse_tls_config,
}

abbrev pub IsIn : String → List String → Type 0
IsIn c [] = ⊥
IsIn c (x ∷ xs) = (x ≡ c) ⊎ IsIn c xs

IsIn-append : (c : String) (xs ys : List String) → IsIn c (xs ++ ys) ↔ (IsIn c xs ⊎ IsIn c ys)
IsIn-append c xs ys = (there xs, λ h. back xs h)
  where
    there : (l : List String) → IsIn c (l ++ ys) → IsIn c l ⊎ IsIn c ys
    there [] h = inr h
    there (x ∷ l) (inl e) = inl (inl e)
    there (x ∷ l) (inr h) = elim (there l h) [ inl a ↦ inl (inr a) | inr b ↦ inr b ]

    back : (l : List String) → IsIn c l ⊎ IsIn c ys → IsIn c (l ++ ys)
    back [] (inl h) = elim h [ ]
    back [] (inr h) = h
    back (x ∷ l) (inl (inl e)) = inl e
    back (x ∷ l) (inl (inr h)) = inr (back l (inl h))
    back (x ∷ l) (inr h) = inr (back l (inr h))

module _ {C : Type 0} (env : Machine C) where
  -- The certificate stands in a file that could be read, and in one of the list.
  abbrev pub IsInText : String → Option String → Type 0
  IsInText c none = ⊥
  IsInText c (some text) = IsIn c (env.certs_in text)

  abbrev pub IsInFile : String → List String → Type 0
  IsInFile c [] = ⊥
  IsInFile c (path ∷ paths) = IsInText c (env.read_file path) ⊎ IsInFile c paths

  append_file-IsIn :
      (c : String) (pool : List String) (file : Option String)
      → IsIn c (append_file env pool file) ↔ (IsIn c pool ⊎ IsInText c file)
  unfolding append_file
  append_file-IsIn c pool none = (λ h. inl h, λ h. elim h [ inl a ↦ a | inr b ↦ elim b [ ] ])
  append_file-IsIn c pool (some text) = IsIn-append c pool (env.certs_in text)

  append_files-IsIn :
      (c : String) (paths pool : List String)
      → IsIn c (append_files env pool paths) ↔ (IsIn c pool ⊎ IsInFile c paths)
  unfolding append_files
  append_files-IsIn c [] pool = (λ h. inl h, λ h. elim h [ inl a ↦ a | inr b ↦ elim b [ ] ])
  append_files-IsIn c (path ∷ paths) pool =
      let here = append_file-IsIn c pool (env.read_file path) in
      let later = append_files-IsIn c paths (append_file env pool (env.read_file path)) in
      (
        λ h. elim (later.0 h) [
          | inl a ↦ elim (here.0 a) [ inl b ↦ inl b | inr b ↦ inr (inl b) ]
          | inr a ↦ inr (inr a)
        ],
        λ h. elim h [
          | inl a ↦ later.1 (inl (here.1 (inl a)))
          | inr a ↦ elim a [ inl b ↦ later.1 (inl (here.1 (inr b))) | inr b ↦ later.1 (inr b) ]
        ],
      )

  -- The certificate is one of the system's, which are not disabled.
  abbrev pub IsOfSystem : String → Bool → Type 0
  IsOfSystem c disabled = (disabled ≡ false) × IsIn c (pool_or_new env.system_cert_pool)

  system-IsIn :
      (c : String) (disabled : Bool)
      → IsIn c (if not disabled then pool_or_new env.system_cert_pool else [])
        ↔ IsOfSystem c disabled
  system-IsIn c true = (λ h. elim h [ ], λ h. cc)
  system-IsIn c false = (λ h. (refl, h), λ h. h.1)

  load_cert_pool-IsIn :
      (c : String) (disabled : Bool) (paths : List String)
      → IsIn c (load_cert_pool env disabled paths) ↔ (IsOfSystem c disabled ⊎ IsInFile c paths)
  unfolding load_cert_pool
  load_cert_pool-IsIn c disabled paths =
      let system = system-IsIn c disabled in
      let files =
        append_files-IsIn c paths (if not disabled then pool_or_new env.system_cert_pool else []) in
      (
        λ h. elim (files.0 h) [ inl a ↦ inl (system.0 a) | inr a ↦ inr a ],
        λ h. elim h [ inl a ↦ files.1 (inl (system.1 a)) | inr a ↦ files.1 (inr a) ],
      )

  -- Who may call a server: with mutual TLS the callers that show a certificate of a pool, which holds
  -- those of the system, of the files of the authorities and of the keys' own files; else all.
  abbrev pub IsGuarded : Tls → TlsConfig C → Type 0
  IsGuarded t config =
      ((t.enable_mtls ≡ false) × (config.client_auth ≡ false) × (config.client_cas ≡ none))
      ⊎ ((t.enable_mtls ≡ true)
          × (config.client_auth ≡ true)
          × ((pool : List String) × (config.client_cas ≡ some pool)
              × ((c : String)
                  → IsIn c pool ↔ (
                      (IsOfSystem c t.disable_system_ca_pool ⊎ IsInFile c t.ca_certs)
                      ⊎ IsInFile c (public_keys t.keys)))))

  by_test :
      (t : Tls) (b : Bool)
      → t.enable_mtls ≡ b
      → IsGuarded t (if not b then base_config env t else mtls_config env t)
  by_test t false e = inl (e, refl, refl)
  by_test t true e =
      let pool = load_cert_pool env t.disable_system_ca_pool t.ca_certs in
      inr (
        e,
        refl,
        (
          append_files env pool (public_keys t.keys),
          refl,
          λ c.
              let all = append_files-IsIn c (public_keys t.keys) pool in
              let authorities = load_cert_pool-IsIn c t.disable_system_ca_pool t.ca_certs in
              (
                λ h. elim (all.0 h) [ inl a ↦ inl (authorities.0 a) | inr a ↦ inr a ],
                λ h. elim h [ inl a ↦ all.1 (inl (authorities.1 a)) | inr a ↦ all.1 (inr a) ],
              ),
        ),
      )

  by_flag :
      (t : Tls) (b : Bool) (config : TlsConfig C)
      → (if b then none else some (enabled_config env t)) ≡ some config
      → (b ≡ false) × IsGuarded t config
  unfolding enabled_config
  by_flag t true config h = cc
  by_flag t false config h =
      let e : enabled_config env t ≡ config = cc in
      (refl, subst (IsGuarded t) e (by_test t t.enable_mtls refl))

-- A TLS configuration is made only of one that is not disabled. Without mutual TLS its server asks callers
-- for no certificate. With mutual TLS it requires one and verifies it, against a pool that holds
-- exactly the certificates of the system, if that has a pool and it is not disabled, those of the
-- files of the authorities, and those of the files of the keys, where a file can be read; the pair
-- that stands beside the keys is not among them.
pub parse_tls_config-IsGuarded :
    {C : Type 0} (env : Machine C) (t : Tls) (config : TlsConfig C)
    → parse_tls_config env (some t) ≡ some config
    → (t.is_disabled ≡ false) × IsGuarded env t config
unfolding parse_tls_config
parse_tls_config-IsGuarded env t config h = by_flag env t t.is_disabled config h
