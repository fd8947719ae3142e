-- ===== src/Header/Examples.antt =====
-- The header helpers at concrete inputs.
use api_x.Base.{◌≡◌, refl, true, str}
use api_x.Header.{canonical_from}

canonical : canonical_from true (str "content-TYPE") ≡ str "Content-Type"
unfolding canonical_from
canonical = refl
