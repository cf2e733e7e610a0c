-- ===== src/Streams/Recordings/Laws.antt =====
-- recordings_handler.go: every branch of the listing.
use vidcast.Base.{
  ℕ, ◌≡◌, refl, sym, ap, ◌↔◌, true, false, List, [], ◌∷◌, ◌++◌, append_assoc, append-nil, none,
  some, arith, Bytes, codes, Result, ok, err, bytes_eq,
}
use vidcast.Go.Fmt
use vidcast.Go.Http.{Request}
use vidcast.Go.FilePath.{slash}
use vidcast.Go.Strings.{Lacks}
use vidcast.Streams.HttpJson.{write_json, write_error}
use vidcast.Streams.S3Client.{RecordingObject}
use vidcast.Streams.Recordings.{
  Recording, RecordingsApi, recording_url_expiry, not_configured, contains_path_traversal,
  to_recording, presign_all, recordings_body, list_recordings_handler,
}

-- The URLs are those that the storage signs for the keys, one for each object.
abbrev pub AllSigned : (Bytes → ℕ → Result Bytes Bytes) → List RecordingObject → List Bytes → Type 0
AllSigned presign [] [] = Unit
AllSigned presign (o ∷ os) (u ∷ us) =
    (presign o.key recording_url_expiry ≡ ok u) × AllSigned presign os us
AllSigned presign _ _ = ⊥

abbrev pub zip_urls : List RecordingObject → List Bytes → List Recording
zip_urls (o ∷ os) (u ∷ us) = to_recording o u ∷ zip_urls os us
zip_urls _ _ = []

presign_all-ok :
    (presign : Bytes → ℕ → Result Bytes Bytes) (os : List RecordingObject) (us : List Bytes)
    → (done : List Recording) → AllSigned presign os us
    → presign_all presign os done ≡ ok (done ++ zip_urls os us)
unfolding presign_all
presign_all-ok presign [] [] done a = ap ok (sym (append-nil done))
presign_all-ok presign [] (u ∷ us) done a = absurd a
presign_all-ok presign (o ∷ os) [] done a = absurd a
presign_all-ok presign (o ∷ os) (u ∷ us) done a = ground (
  arith,
  a.0,
  presign_all-ok presign os us (done ++ to_recording o u ∷ []) a.1,
  append_assoc done (to_recording o u ∷ []) (zip_urls os us),
)

presign_all-err :
    (presign : Bytes → ℕ → Result Bytes Bytes) (os rest : List RecordingObject) (us : List Bytes)
    → (o : RecordingObject) (e : Bytes) (done : List Recording) → AllSigned presign os us
    → presign o.key recording_url_expiry ≡ err e
    → presign_all presign (os ++ o ∷ rest) done ≡ err e
unfolding presign_all
presign_all-err presign [] rest us o e done a h = ground (arith, h)
presign_all-err presign (x ∷ os) rest [] o e done a h = absurd a
presign_all-err presign (x ∷ os) rest (u ∷ us) o e done a h =
    ground
      (arith, a.0, presign_all-err presign os rest us o e (done ++ to_recording x u ∷ []) a.1 h)

-- The guard stops exactly the slugs with a slash or a backslash in them.
pub contains_path_traversal_lem :
    (s : Bytes) → (contains_path_traversal s ≡ false) ↔ (Lacks slash s × Lacks b'\\' s)
unfolding contains_path_traversal
contains_path_traversal_lem [] = (λ _. (tt, tt), λ _. refl)
contains_path_traversal_lem (c ∷ s) =
    let ih = contains_path_traversal_lem s in (λ h. ground (arith, ih.0), λ h. ground (arith, ih.1))

-- The listing answers 503 without a storage, 400 to a slug that the guard stops (whatever the
-- storage would answer), and 502 with the storage's error when it cannot list the channel or cannot
-- sign the URL of some object, those before it being signed. Otherwise it answers 200 with a
-- recording for each object, in the storage's order, with the URL signed for its key.
pub list_recordings_handler_lem :
    (api : RecordingsApi) (r : Request)
    → (list_recordings_handler none r ≡ write_error 503 not_configured)
      × (contains_path_traversal r.slug ≡ true
          → list_recordings_handler (some api) r
            ≡ write_error 400 (codes "invalid slug " ++ Fmt.quote r.slug))
      × ((e : Bytes)
          → contains_path_traversal r.slug ≡ false
          → api.list_recordings r.slug ≡ err e
          → list_recordings_handler (some api) r ≡ write_error 502 e)
      × ((os rest : List RecordingObject) (us : List Bytes) (o : RecordingObject) (e : Bytes)
          → contains_path_traversal r.slug ≡ false
          → api.list_recordings r.slug ≡ ok (os ++ o ∷ rest)
          → AllSigned api.presign_get os us
          → api.presign_get o.key recording_url_expiry ≡ err e
          → list_recordings_handler (some api) r ≡ write_error 502 e)
      × ((os : List RecordingObject) (us : List Bytes)
          → contains_path_traversal r.slug ≡ false
          → api.list_recordings r.slug ≡ ok os
          → AllSigned api.presign_get os us
          → list_recordings_handler (some api) r
            ≡ write_json 200 (recordings_body (zip_urls os us)))
unfolding list_recordings_handler
list_recordings_handler_lem api r = (
  refl,
  λ h. ground (arith, h),
  λ e n h. ground (arith, n, h),
  λ os rest us o e n h a f.
      ground (arith, n, h, presign_all-err api.presign_get os rest us o e [] a f),
  λ os us n h a. ground (arith, n, h, presign_all-ok api.presign_get os us [] a),
)
