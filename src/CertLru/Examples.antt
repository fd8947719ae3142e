-- ===== src/CertLru/Examples.antt =====
-- The certificate cache at a concrete cache.
use api_x.Base.{ℕ, none, [], ◌∷◌, ◌≡◌, refl, str}
use api_x.Base.Int.{pos}
use api_x.Base.Strings.{text_eq}
use api_x.CertLru.{CertLru, new_cert_lru, get, put}

abbrev empty : CertLru ℕ
empty = new_cert_lru (λ a. ([], 0)) (pos 2)

abbrev two : CertLru ℕ
two = record empty {
  list = 1 ∷ 0 ∷ [];
  entries = (str "b", 1) ∷ (str "a", 0) ∷ [];
  heap = λ a. elim a [ ℕ.zero ↦ (str "a", 5) | ℕ.suc n ↦ (str "b", 6) ];
  next = 2;
}

-- A third host drives out the one that was used longest ago.
drives_out : (get (str "b") (put (str "c") 7 (get (str "a") two).0)).1 ≡ none
unfolding get put text_eq
drives_out = refl
