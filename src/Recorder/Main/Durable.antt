-- ===== src/Recorder/Main/Durable.antt =====
-- main.go: what a run leaves of the local files and of the storage.
use vidcast.Base.{
  ◌≡◌, ◌≢◌, ◌⊎◌, inl, inr, none, some, arith, Bytes, Result, ok, bytes_eq, Option-cases,
  Result-cases, subst, ap, sym, ◌∙◌,
}
use vidcast.Base.Dict.{lookup, lookup-delete}
use vidcast.Recorder.Env.{Config, Segment, load_config, load_segment}
use vidcast.Recorder.Uploader.{new_s3_client, put_input, upload_segment}
use vidcast.Recorder.Main.{
  World, Platform, Exit, fatal, done, main, upload, with_segment, with_config,
}

abbrev pub IsFatal : Exit → Type 0
IsFatal (fatal m) = Unit
IsFatal (done lines) = ⊥

abbrev pub IsDone : Exit → Type 0
IsDone (fatal m) = ⊥
IsDone (done lines) = Unit

module _ {Remote Float : Type 0} (p : Platform Remote Float) (getenv : Bytes → Bytes) where
  -- The storage accepted the segment that the environment names, with the content of its file, and
  -- is then as `after` says.
  pub record Uploaded (w : World Remote) (seg : Segment Float) (after : Remote) : Type 0 where
    pub cfg : Config
    pub content : Bytes
    pub settings : load_config p.parse_duration p.order getenv ≡ ok cfg
    pub loaded : load_segment p.parse_float getenv ≡ ok seg
    pub present : lookup seg.local_path w.files ≡ some content
    pub accepted :
        p.put_object
          (new_s3_client cfg)
          cfg.upload_timeout
          (put_input p.format_float cfg.bucket seg content)
          w.remote
        ≡ (after, ok tt)

  -- The run failed and touched no local file, or it uploaded a segment and touched no other file.
  abbrev pub Outcome : World Remote → World Remote × Exit → Type 0
  Outcome w (w', exit) =
      (IsFatal exit × (w'.files ≡ w.files))
      ⊎ ((seg : Segment Float) × IsDone exit
          × Uploaded w seg w'.remote
          × ((k : Bytes) → k ≢ seg.local_path → lookup k w'.files ≡ lookup k w.files)
          × (lookup seg.local_path w'.files ≡ elim (p.unremovable seg.local_path) [
            | none ↦ none
            | some e ↦ lookup seg.local_path w.files
          ]))

  abbrev send : World Remote → Config → Segment Float → Bytes → Remote × Result Bytes (Unit {0})
  send w cfg seg content =
      p.put_object (new_s3_client cfg) cfg.upload_timeout
        (put_input p.format_float cfg.bucket seg content) w.remote

  sent :
      (w : World Remote) (cfg : Config) (seg : Segment Float) (content : Bytes)
      → load_config p.parse_duration p.order getenv ≡ ok cfg
      → load_segment p.parse_float getenv ≡ ok seg
      → lookup seg.local_path w.files ≡ some content
      → p.unopenable seg.local_path ≡ none
      → Outcome w (upload p w cfg seg)
  unfolding upload_segment
  sent w cfg seg content c s found opened = elim (Result-cases (send w cfg seg content).1) [
    | inl (e, refused) ↦
        inl (ground (arith, found, opened, refused), ground (arith, found, opened, refused))
    | inr (t, accepted) ↦ inr (
      seg,
      ground (arith, found, opened, accepted),
      record {
        cfg = cfg;
        content = content;
        settings = c;
        loaded = s;
        present = found;
        accepted = ground (arith, found, opened, accepted);
      },
      λ k n. ground (arith, found, opened, accepted, lookup-delete k seg.local_path w.files),
      ground (arith, found, opened, accepted, lookup-delete seg.local_path seg.local_path w.files),
    )
  ]

  upload-Outcome :
      (w : World Remote) (cfg : Config) (seg : Segment Float)
      → load_config p.parse_duration p.order getenv ≡ ok cfg
      → load_segment p.parse_float getenv ≡ ok seg
      → Outcome w (upload p w cfg seg)
  unfolding upload_segment
  upload-Outcome w cfg seg c s = elim (Option-cases (lookup seg.local_path w.files)) [
    | inl missing ↦ inl (ground (arith, missing), ground (arith, missing))
    | inr (content, found) ↦ elim (Option-cases (p.unopenable seg.local_path)) [
      | inl opened ↦ sent w cfg seg content c s found opened
      | inr (e, failed) ↦ inl (ground (arith, found, failed), ground (arith, found, failed))
    ]
  ]

  -- A run of the hook either fails and leaves every local file in place, or the storage has
  -- accepted the segment that the environment names, under its key and with the content of its
  -- file. Only then is a local file touched: the segment's own is gone unless its removal fails.
  pub main-Outcome : (w : World Remote) → Outcome w (main p getenv w)
  unfolding main
  main-Outcome w = elim (Result-cases (load_config p.parse_duration p.order getenv)) [
    | inl (e, c) ↦ inl (ground (arith, c), ground (arith, c))
    | inr (cfg, c) ↦ elim (Result-cases (load_segment p.parse_float getenv)) [
      | inl (e, s) ↦ inl (ground (arith, c, s), ground (arith, c, s))
      | inr (seg, s) ↦
          subst (Outcome w)
            (ap (with_segment p w cfg) (sym s) ∙ ap (with_config p w getenv) (sym c))
            (upload-Outcome w cfg seg c s)
    ]
  ]
