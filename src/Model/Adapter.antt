-- ===== src/Model/Adapter.antt =====
-- pkg/model/adapter.go and pkg/model/parser_bridge.go: from what the parser gives for a file to the
-- builder. A record stands for the struct of internal/parser/types.go and for its mirror in the
-- adapter, which have the same fields; a file's exports, which no code here reads, are left out.
pub mod Belongs
mod Tests
use qtest.Prelude.{
  String, Bool, true, false, List, [], ◌∷◌, map, ◌⊎◌, inl, inr, if◌then◌else◌, str_eq,
}
use qtest.Prelude.Int.{ℤ}
use qtest.Workspace.Generate.{Answer, got, refused}
use qtest.Model.Types.{SystemModel}
use qtest.Model.Builder.{
  ParsedParam, ParsedFunction, ParsedProperty, ParsedClass, Texts, add_parsed_file, new_model,
}
use qtest.Model.Builder.Analysis.{Risks, Supplement, build}

pub record ParserParameter : Type 0 where
  pub name : String
  pub type_name : String
  pub default : String
  pub optional : Bool

pub record ParserFunction : Type 0 where
  pub id : String
  pub name : String
  pub start_line : ℤ
  pub end_line : ℤ
  pub parameters : List ParserParameter
  pub return_type : String
  pub body : String
  pub comments : String
  pub exported : Bool
  pub async : Bool
  pub class : String

pub record ParserProperty : Type 0 where
  pub name : String
  pub type_name : String
  pub exported : Bool

pub record ParserClass : Type 0 where
  pub id : String
  pub name : String
  pub start_line : ℤ
  pub end_line : ℤ
  pub methods : List ParserFunction
  pub properties : List ParserProperty
  pub comments : String
  pub exported : Bool
  pub extends : String
  pub implements : List String

pub record ParserImport : Type 0 where
  pub module_name : String
  pub names : List String
  pub alias : String

pub record ParsedFile : Type 0 where
  pub path : String
  pub language : String
  pub functions : List ParserFunction
  pub classes : List ParserClass
  pub imports : List ParserImport

-- `ConvertParsedFile` copies a function; of a method it leaves out four fields, of a class two.
abbrev pub bridge_method : ParserFunction → ParserFunction
bridge_method m = record m { id = ""; return_type = ""; comments = ""; class = "" }

abbrev pub bridge_class : ParserClass → ParserClass
bridge_class cls = record cls { id = ""; comments = ""; methods = map bridge_method cls.methods }

unfoldable pub convert_parsed_file : ParsedFile → ParsedFile
convert_parsed_file pf = record pf { classes = map bridge_class pf.classes }

abbrev pub param_of : ParserParameter → ParsedParam
param_of p = record {
  name = p.name;
  type_name = p.type_name;
  optional = p.optional;
  default = p.default;
}

abbrev pub returns_of : String → List ParsedParam
returns_of return_type =
    if str_eq return_type ""
    then []
    else record { name = ""; type_name = return_type; optional = false; default = "" } ∷ []

-- What `AddFile` makes of a function, of a method and of a class.
abbrev pub function_of : ParserFunction → ParsedFunction
function_of fn = record {
  name = fn.name;
  start_line = fn.start_line;
  end_line = fn.end_line;
  parameters = map param_of fn.parameters;
  returns = returns_of fn.return_type;
  class = fn.class;
  decorators = [];
  exported = fn.exported;
  async = fn.async;
  body = fn.body;
  doc_comment = fn.comments;
}

abbrev pub method_of : ParserFunction → ParsedFunction
method_of m = record (function_of m) { returns = []; class = ""; doc_comment = "" }

abbrev pub property_of : ParserProperty → ParsedProperty
property_of p = record { name = p.name; type_name = p.type_name; exported = p.exported }

abbrev pub class_of : ParserClass → ParsedClass
class_of cls = record {
  name = cls.name;
  start_line = cls.start_line;
  end_line = cls.end_line;
  methods = map method_of cls.methods;
  properties = map property_of cls.properties;
  extends = cls.extends;
  implements = cls.implements;
  exported = cls.exported;
}

module _ {ℓ} {S : Type ℓ} (texts : Texts) where
  unfoldable pub add_file : ParsedFile → SystemModel S → SystemModel S
  unfolding add_parsed_file
  add_file pf =
      add_parsed_file texts pf.path pf.language (map function_of pf.functions)
        (map class_of pf.classes)

  -- The loop of `BuildSystemModelFromParser`.
  unfoldable pub add_files : List ParsedFile → SystemModel S → SystemModel S
  unfolding add_file convert_parsed_file
  add_files [] m = m
  add_files (pf ∷ pfs) m = add_files pfs (add_file (convert_parsed_file pf) m)

  -- The files are what `ParseDirectory` answers; without supplements `Build` has no error.
  unfoldable pub build_system_model_from_parser :
      Risks S
      → String
      → ℤ
      → Answer (List ParsedFile)
      → String
      → String
      → String
      → String ⊎ SystemModel S
  unfolding build add_files new_model
  build_system_model_from_parser risks id now (refused e) repo branch commit_sha = inl e
  build_system_model_from_parser risks id now (got files) repo branch commit_sha =
      build risks [] (add_files files (new_model id now repo branch commit_sha))
