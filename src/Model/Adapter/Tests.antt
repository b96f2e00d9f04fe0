-- ===== src/Model/Adapter/Tests.antt =====
-- A model that is built from two files.
use Prim.Native.String.{slice}
use qtest.Prelude.{ℕ, ◌≡◌, refl, ◌+◌, ltb, inr, String, true, false, [], ◌∷◌, List, length, ◌++◌}
use qtest.Prelude.Int.{ℤ}
use qtest.Model.Types.{Endpoint, SystemModel}
use qtest.Model.Builder.{Texts, add_to_module, methods_of, add_parsed_file, new_model}
use qtest.Model.Builder.Modules.{IsModular}
use qtest.Model.Builder.Targets.Described.{IsTargeted}
use qtest.Model.Builder.Analysis.{Risks, Supplement, build}
use qtest.Model.Adapter.{
  ParserFunction, ParserClass, ParsedFile, add_file, add_files, convert_parsed_file,
}
use qtest.Model.Adapter.Belongs.{IsFaithful, build-built}

abbrev texts : Texts
texts = record { dir = λ path. slice path 0 2; base = λ path. path; decimal = λ n. "7" }

-- Scores in percent.
abbrev risks : Risks ℕ
risks = record {
  zero = 0;
  slight = 10;
  low = 30;
  medium = 60;
  high = 90;
  weigh = λ a b c. a + b + c;
  above_half = λ s. ltb 50 s;
  text = λ s. "?";
}

abbrev parsed : String → ℤ → ParserFunction
parsed name last = record {
  id = "";
  name = name;
  start_line = ℤ.pos 1;
  end_line = last;
  parameters = [];
  return_type = "int";
  body = "";
  comments = "";
  exported = true;
  async = false;
  class = "";
}

abbrev stack : ParserClass
stack = record {
  id = "";
  name = "Stack";
  start_line = ℤ.pos 1;
  end_line = ℤ.pos 40;
  methods = parsed "Push" (ℤ.pos 60) ∷ [];
  properties = [];
  comments = "";
  exported = true;
  extends = "";
  implements = [];
}

abbrev files : List ParsedFile
files =
    record {
      path = "a/x.go";
      language = "go";
      functions = parsed "Small" (ℤ.pos 3) ∷ parsed "Large" (ℤ.pos 80) ∷ [];
      classes = [];
      imports = [];
    }
    ∷ record {
      path = "a/y.go";
      language = "go";
      functions = [];
      classes = stack ∷ [];
      imports = [];
    }
    ∷ []

abbrev built : SystemModel ℕ
built = add_files texts files (new_model "m" (ℤ.pos 0) "repo" "main" "")

-- Both files are in one module, and the method of the class is a function.
counted : (length built.modules ≡ 1) × (length built.functions ≡ 3) × (length built.types ≡ 1)
unfolding new_model add_files add_file convert_parsed_file add_parsed_file add_to_module methods_of
counted = (refl, refl, refl)

abbrev route : Endpoint
route = record {
  id = "e1";
  method = "GET";
  path = "/";
  handler = "Small";
  file = "a/x.go";
  line = ℤ.pos 1;
  path_params = [];
  query_params = [];
  request_body = "";
  response_body = "";
  framework = "gin";
  middleware = [];
}

-- It finds one endpoint.
abbrev gin : Supplement ℕ
gin = record {
  name = "gin";
  detect = λ paths. true;
  analyze = λ m. inr (record m { endpoints = m.endpoints ++ route ∷ [] });
}

gin-IsFaithful : IsFaithful texts risks gin
gin-IsFaithful m v e = (
  record m { endpoints = m.endpoints ++ route ∷ [] },
  refl,
  record { unique = v.unique; placed = v.placed },
  e,
)

build-built_example :
    (m : SystemModel ℕ) × (build risks (gin ∷ []) built ≡ inr m) × IsModular m × IsTargeted m
build-built_example =
    build-built texts risks "m" "repo" "main" "" (ℤ.pos 0) files (gin ∷ []) (gin-IsFaithful, tt)
