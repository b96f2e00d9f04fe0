-- ===== src/Model/Builder.antt =====
-- pkg/model/builder.go: the builder that makes a model of parsed files. A float64 is a parameter with
-- the constants and the operations that the code uses, and so are paths, decimals and supplements.
pub mod Modules
pub mod Analysis
pub mod Targets
use Prim.Native.String.{◌++◌ as append_text}
use qtest.Prelude.{
  ℕ, suc, ◌+◌, String, Bool, true, false, Option, none, some, List, [], ◌∷◌, ◌++◌, map, ◌⊎◌, inl,
  inr, ◌&&◌, not, ltb, if◌then◌else◌, str_eq,
}
use qtest.Prelude.Int.{ℤ, ltb_ℤ, ◌+ℤ◌, sub_ℕ, pos_part, neg_part}
use qtest.Model.Types.{
  Parameter, Function, Endpoint, Module, Field, TypeDef, class_kind, CallEdge, TestTarget,
  api_target, unit_target, SystemModel,
}

pub record ParsedParam : Type 0 where
  pub name : String
  pub type_name : String
  pub optional : Bool
  pub default : String

pub record ParsedFunction : Type 0 where
  pub name : String
  pub start_line : ℤ
  pub end_line : ℤ
  pub parameters : List ParsedParam
  pub returns : List ParsedParam
  pub class : String
  pub decorators : List String
  pub exported : Bool
  pub async : Bool
  pub body : String
  pub doc_comment : String

pub record ParsedProperty : Type 0 where
  pub name : String
  pub type_name : String
  pub exported : Bool

pub record ParsedClass : Type 0 where
  pub name : String
  pub start_line : ℤ
  pub end_line : ℤ
  pub methods : List ParsedFunction
  pub properties : List ParsedProperty
  pub extends : String
  pub implements : List String
  pub exported : Bool

abbrev pub convert_parameter : ParsedParam → Parameter
convert_parameter p = record {
  name = p.name;
  type_name = p.type_name;
  optional = p.optional;
  default = p.default;
}

abbrev pub convert_field : ParsedProperty → Field
convert_field p = record {
  name = p.name;
  type_name = p.type_name;
  exported = p.exported;
  tags = "";
}

-- `EndLine - StartLine + 1`
abbrev pub lines_between : ℤ → ℤ → ℤ
lines_between start end =
    sub_ℕ (pos_part end + neg_part start) (pos_part start + neg_part end) +ℤ ℤ.pos 1

-- The strings that the code takes from its libraries: `filepath.Dir`, `filepath.Base`, and a number
-- in decimal.
pub record Texts : Type 0 where
  pub dir : String → String
  pub base : String → String
  pub decimal : ℤ → String

abbrev pub with_name : List String → String → List String
with_name [] x = x ∷ []
with_name (y ∷ ys) x = if str_eq y x then y ∷ ys else y ∷ with_name ys x

-- The module with the id takes the file, or a new module with it stands at the end.
unfoldable pub add_to_module : Module → String → List Module → List Module
add_to_module new path [] = record new { files = path ∷ [] } ∷ []
add_to_module new path (m ∷ ms) =
    let rest = add_to_module new path ms in
    if str_eq m.id new.id then record m { files = m.files ++ path ∷ [] } ∷ ms else m ∷ rest

module _ (texts : Texts) (path language : String) where
  abbrev pub module_id : String
  module_id = append_text "mod:" (texts.dir path)

  abbrev pub new_module : Module
  new_module = record {
    id = module_id;
    name = texts.base (texts.dir path);
    path = texts.dir path;
    language = language;
    files = path ∷ [];
  }

  -- `path:line:name`
  abbrev pub id_of : ℤ → String → String
  id_of line name =
      append_text path (append_text ":" (append_text (texts.decimal line) (append_text ":" name)))

  abbrev pub convert_function : ParsedFunction → Function
  convert_function fn = record {
    id = id_of fn.start_line fn.name;
    name = fn.name;
    module_id = module_id;
    file = path;
    start_line = fn.start_line;
    end_line = fn.end_line;
    parameters = map convert_parameter fn.parameters;
    returns = map convert_parameter fn.returns;
    class = fn.class;
    receiver = "";
    decorators = fn.decorators;
    exported = fn.exported;
    async = fn.async;
    pure = false;
    body = fn.body;
    doc_comment = fn.doc_comment;
    complexity = ℤ.pos 0;
    loc = lines_between fn.start_line fn.end_line;
  }

  abbrev pub method_id : ParsedClass → ParsedFunction → String
  method_id cls fn = id_of fn.start_line (append_text cls.name (append_text "." fn.name))

  abbrev pub convert_method : ParsedClass → ParsedFunction → Function
  convert_method cls fn = record (convert_function fn) {
    id = method_id cls fn;
    class = cls.name;
    decorators = [];
    doc_comment = "";
  }

  abbrev pub convert_class : ParsedClass → TypeDef
  convert_class cls = record {
    id = id_of cls.start_line cls.name;
    name = cls.name;
    kind = class_kind;
    module_id = module_id;
    file = path;
    line = cls.start_line;
    fields = map convert_field cls.properties;
    methods = map (method_id cls) cls.methods;
    extends = cls.extends;
    implements = cls.implements;
    exported = cls.exported;
  }

  unfoldable pub methods_of : List ParsedClass → List Function
  methods_of [] = []
  methods_of (cls ∷ rest) = map (convert_method cls) cls.methods ++ methods_of rest

  -- `AddParsedFile`
  unfoldable pub add_parsed_file {ℓ} :
      {S : Type ℓ} → List ParsedFunction → List ParsedClass → SystemModel S → SystemModel S
  unfolding add_to_module methods_of
  add_parsed_file functions classes m = record m {
    languages = with_name m.languages language;
    modules = add_to_module new_module path m.modules;
    functions = m.functions ++ map convert_function functions ++ methods_of classes;
    types = m.types ++ map convert_class classes;
  }

-- `NewBuilder`: the id and the time are made there.
unfoldable pub new_model {ℓ} : {S : Type ℓ} → String → ℤ → String → String → String → SystemModel S
new_model id now repo branch commit_sha = record {
  id = id;
  repository = repo;
  branch = branch;
  commit_sha = commit_sha;
  created_at = now;
  modules = [];
  functions = [];
  types = [];
  endpoints = [];
  events = [];
  call_graph = [];
  risk_scores = [];
  test_targets = [];
  languages = [];
}
