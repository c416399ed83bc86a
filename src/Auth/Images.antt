-- ===== src/Auth/Images.antt =====
-- Profile images (src/common/services/file-upload.service.ts, and uploadFile and deleteObject of
-- src/common/utils/s3-client.utils.ts).
use hotel_booking_management.Base.Exec.{modify}
use hotel_booking_management.Auth.State.{Accounts}
use hotel_booking_management.Base.{
  String, Bool, Option, some, none, if◌then◌else◌, not, ◌&&◌, str_eq, ◌++◌, ◌∷◌, [],
}
use Prim.Native.String.{◌++◌ as append}

-- A file that multer took from the request.
pub record UploadedFile : Type 0 where
  pub originalname : String
  pub buffer : String

-- The libraries: `put` says whether S3 stores an object under a key, `trim` and `sanitize` are
-- `trim` and `replace(/[^a-zA-Z0-9_.-]/g, '_')` of JavaScript's strings, and `random_uuid` is what
-- crypto draws.
pub record ObjectStore : Type 0 where
  pub put : String → UploadedFile → Bool
  pub trim : String → String
  pub sanitize : String → String
  pub random_uuid : String

module _ (store : ObjectStore) where
  -- `uploadFile`: the key under which the object is stored, or nothing where S3 refuses it.
  unfoldable pub upload_file : String → String → UploadedFile → Option String
  upload_file path key file =
      let stored = append path (append "/" key) in
      if store.put stored file then some stored else none

  unfoldable pub upload_profile_image : UploadedFile → String → Option String
  unfolding upload_file
  upload_profile_image file path =
      let trimmed = store.trim file.originalname in
      let original = if str_eq trimmed "" then "profile" else trimmed in
      upload_file path (append store.random_uuid (append "-" (store.sanitize original))) file

  -- The image after an update: the file, else the address of the body, else the present one.
  unfoldable pub resolve_profile_image_url :
      Option UploadedFile → Option String → String → String → String
  unfolding upload_profile_image
  resolve_profile_image_url (some file) body_url existing_url s3_path =
      elim (upload_profile_image file s3_path) [ none ↦ existing_url | some uploaded ↦ uploaded ]
  resolve_profile_image_url none (some body_url) existing_url s3_path = body_url
  resolve_profile_image_url none none existing_url s3_path = existing_url

-- `deleteObject` does nothing for an empty key, and reports an error of S3 to the log only.
unfoldable pub delete_profile_image : String → Accounts (Unit {0})
delete_profile_image url = modify (λ db. record db {
  deleted_objects =
      if not (str_eq url "") then db.deleted_objects ++ url ∷ [] else db.deleted_objects;
})

unfoldable pub replace_profile_image : String → String → Accounts (Unit {0})
replace_profile_image new_url old_url = modify (λ db. record db {
  deleted_objects =
      if not (str_eq new_url old_url) && not (str_eq old_url "")
      then db.deleted_objects ++ old_url ∷ []
      else db.deleted_objects;
})
