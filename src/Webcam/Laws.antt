-- ===== src/Webcam/Laws.antt =====
-- server/webcam/main.js: uploading a picture and reading it.
use text.Mathlib.TextPositions.{eq_refl}
use schulealsstaat.Base.{◌≡◌, String, false, none, some, [], ◌∷◌, arith, str_eq_iff}
use schulealsstaat.Cert.{check}
use schulealsstaat.Webcam.{
  Upload, Host, Files, read_file, sent, file_of, store, upload_image, send_image, get_image,
}

module _ (h : Host) where
  -- Uploading keeps the contents of every file there is.
  upload_keeps :
      (imgdata fn old : String) (fs : Files)
      → read_file fn fs ≡ some old
      → read_file fn (upload_image h imgdata fs).1 ≡ some old
  unfolding upload_image store read_file
  upload_keeps imgdata fn old fs e = ground (
    arith,
    str_eq_iff (file_of h (elim (h.parse imgdata) [ none ↦ "" | some img ↦ img.name ])) fn,
  )

  -- A picture that was uploaded under a new name is what a client with an accepted certificate gets
  -- for this name, if base64 text survives being written and read.
  pub upload-get :
      (imgdata client_cert : String) (img : Upload) (fs : Files)
      → h.parse imgdata ≡ some img
      → read_file (file_of h img.name) fs ≡ none
      → (check h.sha256 h.read_cert (some ("webcam_hash" ∷ [])) (some client_cert)).denied ≡ false
      → h.to_base64 (h.from_base64 (h.strip img.pic)) ≡ h.strip img.pic
      → let (answer, fs') = upload_image h imgdata fs in
        (answer ≡ sent "ok") × (get_image h img.name client_cert fs' ≡ sent (h.strip img.pic))
  unfolding upload_image store read_file get_image send_image
  upload-get imgdata client_cert img fs p n c b = ground (arith, eq_refl (file_of h img.name))
