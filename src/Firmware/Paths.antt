-- ===== src/Firmware/Paths.antt =====
-- pi/portal.py: which files the handlers of the firmware repository reach.
use embedded_ai_harness.Prelude.{
  ℕ, Bool, false, not, ◌&&◌, ◌||◌, none, some, List, [], ◌∷◌, ◌++◌, ◌≡◌, refl, sym, ap, ◌∙◌, subst,
  arith, if-cases, if_false,
}
use embedded_ai_harness.Mirror.{Text, equals, has, firmware}
use embedded_ai_harness.Firmware.{
  Files, read, remove, deleted, has_dots, begins_with_slash, path_join, is_empty, deleted_file,
  delete,
}

read-remove : (path : Text) (files : Files) → read path (remove path files) ≡ none
unfolding read remove
read-remove path [] = refl
read-remove path ((p, bytes) ∷ files) =
    if-cases (λ l. read path l ≡ none) (equals p path) _ _ (λ e. read-remove path files)
      (λ e. if_false (equals p path) _ _ e ∙ read-remove path files)

-- f"/firmware/{project}/{filename}"
abbrev pub url_of : Text → Text → Text
url_of project filename = 47 ∷ firmware ++ 47 ∷ (project ++ 47 ∷ filename)

-- A name that a URL can hold as it is: without space, "#", "?" and ";".
unfoldable pub is_plain : Text → Bool
is_plain t = not (has 32 t) && (not (has 35 t) && (not (has 63 t) && not (has 59 t)))

-- A delete whose file name is an absolute path without ".." removes that file, wherever it is: only the names of
-- the download and the upload are searched for a slash.
pub delete-absolute :
    (dir project rest : Text) (bytes : List ℕ) (files : Files)
    → is_empty project ≡ false
    → (has_dots project || has_dots (47 ∷ rest)) ≡ false
    → read (47 ∷ rest) files ≡ some bytes
    → let (after, r) = delete dir project (47 ∷ rest) files in
      (r ≡ deleted) × (read (47 ∷ rest) after ≡ none)
unfolding delete is_empty path_join begins_with_slash deleted_file
delete-absolute dir project rest bytes files some_ good there =
    let path : Text = 47 ∷ rest in
    let e : delete dir project path files ≡ (remove path files, deleted) =
      if_false (is_empty project || false) _ _ (ground arith)
      ∙ if_false (has_dots project || has_dots path) _ _ good
      ∙ ap (λ o. deleted_file path o files) there in
    subst (λ q. (q.1 ≡ deleted) × (read path q.0 ≡ none)) (sym e) (refl, read-remove path files)
