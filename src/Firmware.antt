-- ===== src/Firmware.antt =====
-- pi/portal.py: the firmware repository: what its handlers for download, upload and delete do with the files
-- below FIRMWARE_DIR, and how an uploaded file is taken from a multipart body (Firmware/Multipart). A text is the
-- list of its code points, 46 is a dot and 47 a slash; the store has the files of the whole file system.
pub mod Paths
pub mod Multipart
mod Examples
use embedded_ai_harness.Prelude.{
  ℕ, Bool, true, false, not, ◌&&◌, ◌||◌, Option, none, some, List, [], ◌∷◌, if◌then◌else◌, ◌==◌,
}
use embedded_ai_harness.Mirror.{Text, split, equals, has, join}

-- The files, by their paths.
abbrev pub Files : Type 0
Files = List (Text × List ℕ)

pub read : Text → Files → Option (List ℕ)
unfolding equals
read path [] = none
read path ((p, bytes) ∷ files) = if equals p path then some bytes else read path files

pub remove : Text → Files → Files
unfolding equals
remove path [] = []
remove path ((p, bytes) ∷ files) =
    let rest = remove path files in if equals p path then rest else (p, bytes) ∷ rest

-- `open(path, "wb")` and `write`
abbrev pub write : Text → List ℕ → Files → Files
write path bytes files = (path, bytes) ∷ remove path files

pub data Reply : Type 0 where
  invalid_path traversal not_found missing stored deleted : Reply
  -- the file's bytes
  sent : List ℕ → Reply

-- `".." in text`
pub has_dots : Text → Bool
has_dots [] = false
has_dots (c ∷ []) = false
has_dots (c ∷ d ∷ rest) = (c == 46 && d == 46) || has_dots (d ∷ rest)

pub begins_with_slash : Text → Bool
begins_with_slash [] = false
begins_with_slash (c ∷ rest) = c == 47

-- os.path.join
pub path_join : Text → Text → Text
unfolding begins_with_slash
path_join dir part = if begins_with_slash part then part else join dir part

abbrev pub path_of : Text → Text → Text → Text
path_of dir project filename = path_join (path_join dir project) filename

sent_file : Option (List ℕ) → Reply
sent_file none = not_found
sent_file (some bytes) = sent bytes

-- The test of the download and the upload.
pub is_bad : Text → Text → Bool
unfolding has_dots has
is_bad project filename = has_dots project || has_dots filename || has 47 project || has 47 filename

download_parts : Text → List Text → Files → Reply
unfolding is_bad path_join read sent_file
download_parts dir (a ∷ b ∷ project ∷ filename ∷ []) files =
    if is_bad project filename
    then traversal
    else sent_file (read (path_of dir project filename) files)
download_parts dir _ files = invalid_path

-- `_handle_firmware_download`
pub download : Text → Text → Files → Reply
unfolding download_parts split
download dir path files = download_parts dir (split path) files

-- What stands before the first `c`.
pub cut : ℕ → Text → Text
cut c [] = []
cut c (x ∷ rest) = let more = cut c rest in if x == c then [] else x ∷ more

-- What stands before the parameters: from a semicolon of the last segment on.
pub cut_params : Text → Text
unfolding has
cut_params [] = []
cut_params (x ∷ rest) =
    let more = cut_params rest in if (x == 59) && not (has 47 rest) then [] else x ∷ more

-- `urlparse(self.path).path`, for a target that is a path: without its fragment, query and parameters. What is
-- quoted in it stays quoted.
pub url_path : Text → Text
unfolding cut cut_params
url_path target = cut_params (cut 63 (cut 35 target))

-- `do_GET` for a target below /firmware/.
pub get_firmware : Text → Text → Files → Reply
unfolding download url_path
get_firmware dir target files = download dir (url_path target) files

pub is_empty : Text → Bool
is_empty [] = true
is_empty (c ∷ cs) = false

-- `_handle_firmware_upload`, from the fields of the body on: the project, the file's bytes and its name.
pub upload : Text → Option Text → Option (List ℕ) → Option Text → Files → Files × Reply
unfolding is_bad path_join is_empty
upload dir (some project) (some bytes) (some name) files =
    if is_empty project || is_empty name
    then (files, missing)
    else if is_bad project name
    then (files, traversal)
    else (write (path_of dir project name) bytes files, stored)
upload dir _ _ _ files = (files, missing)

deleted_file : Text → Option (List ℕ) → Files → Files × Reply
unfolding remove
deleted_file path none files = (files, not_found)
deleted_file path (some bytes) files = (remove path files, deleted)

-- `_handle_firmware_delete`, of a body that is not empty; a missing key is the empty text.
pub delete : Text → Text → Text → Files → Files × Reply
unfolding has_dots path_join read deleted_file is_empty
delete dir project filename files =
    if is_empty project || is_empty filename
    then (files, missing)
    else if has_dots project || has_dots filename
    then (files, traversal)
    else let path = path_of dir project filename in deleted_file path (read path files) files
