-- ===== src/Webcam.antt =====
-- server/webcam/main.js: pictures are uploaded once and read with a certificate. The file system is
-- a list of the files that were written; `path.join`, base64 and JSON are parameters.
pub mod Laws
use Prim.Native.String.{◌++◌ as str_append}
use schulealsstaat.Base.{
  ℕ, String, Bool, true, false, Option, none, some, List, [], ◌∷◌, str_eq, if◌then◌else◌,
}
use schulealsstaat.Cert.{check, Verdict}

-- The JSON of an upload.
pub record Upload : Type 0 where
  pub name : String
  pub pic : String

pub record Host : Type 0 where
  -- `JSON.parse`, which may throw
  pub parse : String → Option Upload
  -- `path.join(__dirname, IMG_PATH, file)`
  pub img_path : String → String
  -- `pic.replace(/^data:image\/png;base64,/, "")`
  pub strip : String → String
  -- the bytes, as a text, that a base64 text stands for, and back
  pub from_base64 : String → String
  pub to_base64 : String → String
  pub sha256 : String → String
  pub read_cert : String → String

abbrev pub Files : Type 0
Files = List (String × String)

unfoldable pub read_file : String → Files → Option String
read_file fn [] = none
read_file fn ((f, bytes) ∷ fs) = if str_eq f fn then some bytes else read_file fn fs

-- What a request ends with: a text, an empty answer, no answer at all, or an exception.
pub data Response : Type 0 where
  sent : String → Response
  empty unanswered crashed : Response

module _ (h : Host) where
  abbrev pub file_of : String → String
  file_of name = h.img_path (str_append name ".png")

  -- `fs.writeFile` with the flag `wx`: a file that exists is an error.
  unfoldable pub store : Upload → Files → Response × Files
  store img fs =
      let fn = file_of img.name in
      elim (read_file fn fs) [
        | some old ↦ (sent "error: fs.writeFile", fs)
        | none ↦ (sent "ok", (fn, h.from_base64 (h.strip img.pic)) ∷ fs)
      ]

  -- `JSON.parse` is not guarded.
  unfoldable pub upload_image : String → Files → Response × Files
  upload_image imgdata fs = elim (h.parse imgdata) [
    | none ↦ (crashed, fs)
    | some img ↦ store img fs
  ]

  -- `fs.readFile` and its callback
  unfoldable pub send_image : String → Files → Response
  send_image imgname fs = elim (read_file (file_of imgname) fs) [
    | none ↦ empty
    | some bytes ↦ sent (h.to_base64 bytes)
  ]

  -- Without `cb_false` a wrong certificate is not answered.
  unfoldable pub get_image : String → String → Files → Response
  get_image imgname client_cert fs =
      let v = check h.sha256 h.read_cert (some ("webcam_hash" ∷ [])) (some client_cert) in
      if v.denied then unanswered else send_image imgname fs
