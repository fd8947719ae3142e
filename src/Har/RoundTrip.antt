-- ===== src/Har/RoundTrip.antt =====
-- What har.go exports it imports again.
use api_x.Base.{
  ℕ, ◌+◌, Text, true, Option, none, some, List, [], ◌∷◌, ◌≡◌, refl, arith, map, length, ◌==◌,
}
use api_x.Har.{Codec, ok, export_entries, parse_entries}
use api_x.Har.Json.{entry_through, marshal_transactions}
use api_x.Har.Records.{RequestRecord, ResponseRecord, ImportedTransaction, HarEntry}
use api_x.Har.Bodies.{IsLawful}
use api_x.Har.Restoring.{HasStatus, HasUrl, Restores, restored, restored-Restores, parse-through}

module _ (lib : Codec) (law : IsLawful lib) where
  -- The entries of an export, each with the fresh identifier that its import takes.
  abbrev pub numbered : (ℕ → Text) → ℕ → List HarEntry → List (Text × HarEntry)
  numbered ids n [] = []
  numbered ids n (e ∷ es) = (ids n, e) ∷ numbered ids (n + 1) es

  -- Every transaction has a URL, and its response a status, and all texts but the bodies are UTF-8.
  abbrev pub CanRestore :
      List (Option (RequestRecord lib.Time)) → List (Option ResponseRecord) → Type 0
  CanRestore (some req ∷ reqs) (resp ∷ resps) =
      HasUrl lib req × HasStatus lib resp × CanRestore reqs resps
  CanRestore (none ∷ reqs) (resp ∷ resps) = CanRestore reqs resps
  CanRestore _ _ = Unit

  -- The transactions come back one by one, without the missing ones.
  abbrev pub RestoresAll :
      (ℕ → Text)
      → ℕ
      → List (Option (RequestRecord lib.Time))
      → List (Option ResponseRecord)
      → List (ImportedTransaction lib.Time)
      → Type 0
  RestoresAll ids n (some req ∷ reqs) (resp ∷ resps) (tx ∷ txs) =
      Restores lib (ids n) req resp tx × RestoresAll ids (n + 1) reqs resps txs
  RestoresAll ids n (some req ∷ reqs) (resp ∷ resps) [] = ⊥
  RestoresAll ids n (none ∷ reqs) (resp ∷ resps) txs = RestoresAll ids n reqs resps txs
  RestoresAll ids n _ _ [] = Unit
  RestoresAll ids n _ _ (tx ∷ txs) = ⊥

  entries_restored :
      (now : lib.Time) (ids : ℕ → Text) (n : ℕ) (reqs : List (Option (RequestRecord lib.Time)))
      (resps : List (Option ResponseRecord))
      → CanRestore reqs resps
      → (txs : List (ImportedTransaction lib.Time)) × (parse_entries lib now
            (numbered ids n (map (entry_through lib) (export_entries lib reqs resps)))
          ≡ ok txs)
        × RestoresAll ids n reqs resps txs
  unfolding parse_entries export_entries
  entries_restored now ids n [] resps h = ([], refl, tt)
  entries_restored now ids n (none ∷ reqs) [] h = ([], refl, tt)
  entries_restored now ids n (some req ∷ reqs) [] h = ([], refl, tt)
  entries_restored now ids n (none ∷ reqs) (resp ∷ resps) h =
      entries_restored now ids n reqs resps h
  entries_restored now ids n (some req ∷ reqs) (resp ∷ resps) (url, status, h) =
      let (txs, run, all) = entries_restored now ids (n + 1) reqs resps h in
      (
        restored lib law (ids n) req resp ∷ txs,
        rw (parse-through lib law now (ids n) req resp url status, run) refl,
        (restored-Restores lib law (ids n) req resp, all),
      )

  -- As many requests as responses, all of whose texts but the bodies are UTF-8, are exported to a document
  -- that can be imported again, and gives back every transaction under a fresh identifier: its method,
  -- which is GET for a blank one, its URL, its body, whatever its bytes, its time and duration, its headers
  -- but one without a name, and its response, whose blank status text is the one of its status.
  pub parse-export :
      (now : lib.Time) (ids : ℕ → Text) (n : ℕ) (reqs : List (Option (RequestRecord lib.Time)))
      (resps : List (Option ResponseRecord))
      → length reqs ≡ length resps
      → CanRestore reqs resps
      → (entries : List HarEntry) × (txs : List (ImportedTransaction lib.Time))
        × (marshal_transactions lib reqs resps ≡ some entries)
        × (parse_entries lib now (numbered ids n entries) ≡ ok txs)
        × RestoresAll ids n reqs resps txs
  unfolding marshal_transactions
  parse-export now ids n reqs resps same h =
      let (txs, run, all) = entries_restored now ids n reqs resps h in
      let counted : (length reqs == length resps) ≡ true = ground (arith, same) in
      (map (entry_through lib) (export_entries lib reqs resps), txs, rw counted refl, run, all)
