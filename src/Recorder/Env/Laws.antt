-- ===== src/Recorder/Env/Laws.antt =====
-- env.go: what the loaded settings and the loaded segment satisfy.
use vidcast.Base.{
  ◌≡◌, refl, ◌∙◌, sym, ap, ◌≢◌, ◌↔◌, inl, inr, true, false, List, [], ◌∷◌, ◌++◌, none, some,
  Option-cases, arith, Bytes, codes, Result, ok, err, bytes_eq, contains, ℤ,
}
use vidcast.Base.Dict.{Dict, lookup}
use vidcast.Go.Fmt
use vidcast.Go.FilePath.{slash}
use vidcast.Go.Strings.{Lacks}
use vidcast.Recorder.Env.{
  required, first_missing, not_set, env_config, load_config, contains_path_traversal, Segment,
  load_segment,
}

first_missing-none :
    (m : Dict Bytes Bytes) (names : List Bytes) (k : Bytes)
    → first_missing m names ≡ none
    → contains names k ≡ true
    → lookup k m ≢ some []
unfolding first_missing
first_missing-none m [] k h c = cc
first_missing-none m (n ∷ names) k h c = λ e. ground (arith, first_missing-none m names k, e)

first_missing-some :
    (m : Dict Bytes Bytes) (names : List Bytes) (k : Bytes)
    → first_missing m names ≡ some k
    → (contains names k ≡ true) × (lookup k m ≡ some [])
unfolding first_missing
first_missing-some m [] k h = cc
first_missing-some m (n ∷ names) k h = ground (arith, first_missing-some m names k)

abbrev pub required_vars : List Bytes
required_vars =
    codes "S3_ENDPOINT" ∷ codes "S3_BUCKET" ∷ codes "S3_ACCESS_KEY" ∷ codes "S3_SECRET_KEY" ∷ []

required-lookup :
    (getenv : Bytes → Bytes) (k : Bytes)
    → contains required_vars k ≡ true
    → lookup k (required (env_config getenv)) ≡ some (getenv k)
unfolding lookup
required-lookup getenv k c = ground arith

-- `range` visits each key of the map and no other key.
abbrev pub VisitsAll : List Bytes → Type 0
VisitsAll order = (k : Bytes) → contains order k ≡ contains required_vars k

module _ (parse_duration : Bytes → Result Bytes ℤ) (order : List Bytes) (visits : VisitsAll order)
    (getenv : Bytes → Bytes) where
  -- In whatever order the map is visited: when a required variable is empty, the error names a
  -- required variable that is empty. When none is, the settings are those of the environment, with
  -- the default timeout, or with the one that S3_UPLOAD_TIMEOUT holds, which is an error only if it
  -- does not parse.
  pub load_config_lem :
      ((k : Bytes)
        → contains required_vars k ≡ true
        → getenv k ≡ []
        → (name : Bytes) × (contains required_vars name ≡ true)
          × (getenv name ≡ [])
          × (load_config parse_duration order getenv ≡ err (not_set name)))
      × (((k : Bytes) → contains required_vars k ≡ true → getenv k ≢ [])
          → (getenv (codes "S3_UPLOAD_TIMEOUT") ≡ []
              → load_config parse_duration order getenv ≡ ok (env_config getenv))
            × ((d : ℤ)
                → getenv (codes "S3_UPLOAD_TIMEOUT") ≢ []
                → parse_duration (getenv (codes "S3_UPLOAD_TIMEOUT")) ≡ ok d
                → load_config parse_duration order getenv
                  ≡ ok (record (env_config getenv) { upload_timeout = d }))
            × ((e : Bytes)
                → getenv (codes "S3_UPLOAD_TIMEOUT") ≢ []
                → parse_duration (getenv (codes "S3_UPLOAD_TIMEOUT")) ≡ err e
                → load_config parse_duration order getenv
                  ≡ err (
                      codes "parse S3_UPLOAD_TIMEOUT "
                      ++ Fmt.quote (getenv (codes "S3_UPLOAD_TIMEOUT"))
                      ++ codes ": "
                      ++ e)))
  unfolding load_config
  load_config_lem =
      let m = required (env_config getenv) in
      elim (Option-cases (first_missing m order)) [
        | inr (name, e) ↦
            let (c, empty) = first_missing-some m order name e in
            let seen : contains required_vars name ≡ true = sym (visits name) ∙ c in
            let unset : getenv name ≡ [] =
              ground (arith, required-lookup getenv name seen, empty) in
            (λ k _ _. (name, seen, unset, ground (arith, e)), λ all. absurd (all name seen unset))
        | inl e ↦ (
          λ k c empty. absurd (
              first_missing-none m order k e (visits k ∙ c)
                (required-lookup getenv k c ∙ ap some empty)),
          λ all. (
            λ raw. ground (arith, e, raw),
            λ d raw p. ground (arith, e, raw, p),
            λ m raw p. ground (arith, e, raw, p),
          ),
        )
      ]

-- The guard stops exactly the paths with a slash or a backslash in them.
pub contains_path_traversal_lem :
    (s : Bytes) → (contains_path_traversal s ≡ false) ↔ (Lacks slash s × Lacks b'\\' s)
unfolding contains_path_traversal
contains_path_traversal_lem [] = (λ _. (tt, tt), λ _. refl)
contains_path_traversal_lem (c ∷ s) =
    let ih = contains_path_traversal_lem s in (λ h. ground (arith, ih.0), λ h. ground (arith, ih.1))

-- A segment is loaded exactly when its path is one non-empty segment without a backslash, its file
-- has a name, and its duration parses; and it holds what the environment says.
pub load_segment_lem :
    {Float : Type 0} (parse_float : Bytes → Result Bytes Float) (getenv : Bytes → Bytes)
    (seg : Segment Float)
    → (load_segment parse_float getenv ≡ ok seg) ↔ (
        (seg.path ≡ getenv (codes "MTX_PATH"))
        × (seg.local_path ≡ getenv (codes "MTX_SEGMENT_PATH"))
        × (parse_float (getenv (codes "MTX_SEGMENT_DURATION")) ≡ ok seg.duration)
        × (seg.path ≢ [])
        × Lacks slash seg.path
        × Lacks b'\\' seg.path
        × (seg.local_path ≢ []))
unfolding load_segment
load_segment_lem parse_float getenv seg =
    let g = contains_path_traversal_lem (getenv (codes "MTX_PATH")) in
    (λ h. ground (arith, g.0), λ h. ground (arith, g.1))
