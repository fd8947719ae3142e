-- ===== src/Contracts/Examples.antt =====
-- The checks of a contract at a concrete one, and the theorem of this folder applied to it.
use api_x.Base.{str, true, [], ◌∷◌, refl, All, if◌then◌else◌}
use api_x.Base.Strings.{text_eq}
use api_x.Contracts.{Contract, Patterns, validate}
use api_x.Contracts.Accepting.{Distinct, Defined, accepted_contract}

-- Patterns that know the path of the example alone.
abbrev patterns : Patterns
patterns = record {
  path_params = λ path. if text_eq path (str "/users/{id}") then str "id" ∷ [] else [];
  is_status_code = λ code. text_eq code (str "200");
}

abbrev users : Contract
users = record {
  schema_version = str "apix.contract/v1";
  title = str "users";
  version = str "1";
  endpoints =
      record {
        path = str "/users";
        operations =
            (
              str "GET",
              record { parameters = []; responses = (str "200", str "all") ∷ []; auth = [] },
            )
            ∷ [];
      }
      ∷ record {
        path = str "/users/{id}";
        operations =
            (
              str "get",
              record {
                parameters =
                    record {
                      name = str "id";
                      location = str "path";
                      required = true;
                      schema_type = str "integer";
                    }
                    ∷ [];
                responses = (str "default", str "one") ∷ [];
                auth = str "http" ∷ [];
              },
            )
            ∷ [];
      }
      ∷ [];
}

accepted_contract_example : Distinct users.endpoints × All (Defined patterns) users.endpoints
unfolding validate
accepted_contract_example = accepted_contract patterns users refl
