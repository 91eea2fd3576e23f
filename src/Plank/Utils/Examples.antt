-- ===== src/Plank/Utils/Examples.antt =====
-- Texts on which the theorems are applied.
use transport_go.Prelude.{◌≡◌, refl, ℕ, true, false, some, List, [], ◌∷◌}
use transport_go.Plank.Utils.Url.{
  find_protocol, sanitize_url, is_single, ends_in_slash, sanitize_url-is_single,
}
use transport_go.Plank.Utils.Paths.{derive_static_uri_from_path}

-- "a//b"
sanitize_url-is_single_example :
    (out : List ℕ) × (sanitize_url (97 ∷ 47 ∷ 47 ∷ 98 ∷ []) true ≡ some out)
    × (is_single false out ≡ true)
    × (ends_in_slash out ≡ true)
unfolding find_protocol
sanitize_url-is_single_example = sanitize_url-is_single 97 (47 ∷ 47 ∷ 98 ∷ []) true refl

sanitized : sanitize_url (97 ∷ 47 ∷ 47 ∷ 98 ∷ []) true ≡ some (97 ∷ 47 ∷ 98 ∷ 47 ∷ [])
unfolding sanitize_url
sanitized = refl

-- The third example of the comment, and the second one, which says "/folder".
aliased : derive_static_uri_from_path "folder:my-folder" ≡ ("folder", "/my-folder")
unfolding derive_static_uri_from_path
aliased = refl

absolute : derive_static_uri_from_path "/folder" ≡ ("/folder", "folder")
unfolding derive_static_uri_from_path
absolute = refl
