-- ===== src/HeaderEditor/Examples.antt =====
-- The header editor at a concrete header.
use api_x.Base.{[], ◌∷◌, ◌≡◌, refl, str}
use api_x.Base.Strings.{text_eq}
use api_x.Header.{canonical_key}
use api_x.HeaderEditor.{edit_headers}

-- One header is deleted and another one is set, under their names in canonical form.
edits :
    edit_headers ((str "X-A", str "1" ∷ []) ∷ []) ((str "x-a", []) ∷ (str "x-b", str "2") ∷ [])
    ≡ (str "X-B", str "2" ∷ []) ∷ []
unfolding edit_headers canonical_key text_eq
edits = refl
