-- ===== src/HeaderEditor/Editing.antt =====
-- What the edits of internal/pluginrt/builtins/header_editor.go leave behind.
use api_x.Base.{Text, false, [], ◌∷◌, ◌++◌, ◌≡◌, refl, ◌∙◌, All}
use api_x.Base.Strings.{text_eq, text_eq_refl}
use api_x.Base.Maps.{Assoc, lookup-insert, lookup-delete}
use api_x.Header
use api_x.Header.{Header, canonical_key, first_or_blank}
use api_x.HeaderEditor.{edit_one, edit_headers}

-- An edit of one name gives it the configured value, and blank is absent.
edit_one-same : (h : Header) (k v : Text) → Header.get (edit_one h k v) k ≡ v
unfolding Header.get edit_one Header.set Header.del
edit_one-same h k [] =
    rw (lookup-delete (canonical_key k) (canonical_key k) h, text_eq_refl (canonical_key k))
edit_one-same h k (c ∷ v) = rw (
  lookup-insert (canonical_key k) (canonical_key k) ((c ∷ v) ∷ []) h,
  text_eq_refl (canonical_key k),
)

-- And it leaves the other names alone.
edit_one-other :
    (h : Header) (j v k : Text)
    → text_eq (canonical_key j) (canonical_key k) ≡ false
    → Header.get (edit_one h j v) k ≡ Header.get h k
unfolding Header.get edit_one Header.set Header.del
edit_one-other h j [] k other = rw (lookup-delete (canonical_key j) (canonical_key k) h, other)
edit_one-other h j (c ∷ v) k other =
    rw (lookup-insert (canonical_key j) (canonical_key k) ((c ∷ v) ∷ []) h, other)

-- The entries of the configuration behind one have other names.
abbrev pub OtherNames : Text → Assoc Text → Type 0
OtherNames k behind = All (λ p. text_eq (canonical_key p.0) (canonical_key k) ≡ false) behind

edit_headers-other :
    (h : Header) (kvs : Assoc Text) (k : Text)
    → OtherNames k kvs
    → Header.get (edit_headers h kvs) k ≡ Header.get h k
unfolding edit_headers
edit_headers-other h [] k other = refl
edit_headers-other h ((j, v) ∷ kvs) k other =
    edit_headers-other (edit_one h j v) kvs k other.1 ∙ edit_one-other h j v k other.0

-- Every configured name whose spelling in canonical form does not come again behind it ends with its
-- configured value, and a blank one is absent, whatever the headers were.
pub edited_value :
    (h : Header) (before : Assoc Text) (k v : Text) (behind : Assoc Text)
    → OtherNames k behind
    → Header.get (edit_headers h (before ++ (k, v) ∷ behind)) k ≡ v
unfolding edit_headers
edited_value h [] k v behind other =
    edit_headers-other (edit_one h k v) behind k other ∙ edit_one-same h k v
edited_value h ((j, w) ∷ before) k v behind other =
    edited_value (edit_one h j w) before k v behind other
