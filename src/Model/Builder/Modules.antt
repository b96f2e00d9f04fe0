-- ===== src/Model/Builder/Modules.antt =====
-- pkg/model/builder.go: the modules of a model, and the functions in them.
use qtest.Prelude.{
  ◌≡◌, refl, String, Bool, true, false, List, [], ◌∷◌, ◌++◌, map, arith, All, All-map, Bool-cases,
  inl, inr, All-append, All-mapped, str_eq, str_eq_iff, if◌then◌else◌,
}
use qtest.Model.Types.{Function, Module, SystemModel}
use qtest.Model.Builder.{
  ParsedFunction, ParsedClass, Texts, add_to_module, new_module, convert_function, convert_method,
  methods_of, add_parsed_file,
}

abbrev pub has_path : String → List String → Bool
has_path path [] = false
has_path path (f ∷ fs) = if str_eq f path then true else has_path path fs

abbrev pub has_module : String → List Module → Bool
has_module k [] = false
has_module k (m ∷ ms) = if str_eq m.id k then true else has_module k ms

-- The module with the id lists the path.
abbrev pub lists_file : String → String → List Module → Bool
lists_file k path [] = false
lists_file k path (m ∷ ms) = if str_eq m.id k then has_path path m.files else lists_file k path ms

abbrev pub UniqueModules : List Module → Type 0
UniqueModules [] = Unit
UniqueModules (m ∷ ms) = (has_module m.id ms ≡ false) × UniqueModules ms

abbrev IsPlaced : List Module → Function → Type 0
IsPlaced ms f = lists_file f.module_id f.file ms ≡ true

-- No two modules have one id, and each function is in a module that lists its file.
pub record IsModular {ℓ} {S : Type ℓ} (m : SystemModel S) : Type ℓ where
  pub unique : UniqueModules m.modules
  pub placed : All (IsPlaced m.modules) m.functions

pub str_eq_refl : (s : String) → str_eq s s ≡ true
str_eq_refl s = (str_eq_iff s s).1 refl

has_path-append :
    (p q : String) (fs : List String) → has_path p fs ≡ true → has_path p (fs ++ q ∷ []) ≡ true
has_path-append p q [] h = cc
has_path-append p q (f ∷ fs) h = ground (arith, has_path-append p q fs)

has_path_last : (p : String) (fs : List String) → has_path p (fs ++ p ∷ []) ≡ true
has_path_last p [] = rw str_eq_refl
has_path_last p (f ∷ fs) = ground (arith, has_path_last p fs)

lists_file-add :
    (new : Module) (path : String) (ms : List Module)
    → lists_file new.id path (add_to_module new path ms) ≡ true
unfolding add_to_module
lists_file-add new path [] = ground (arith, str_eq_refl new.id, str_eq_refl path)
lists_file-add new path (m ∷ ms) =
    ground (arith, lists_file-add new path ms, has_path_last path m.files)

lists_file-kept :
    (new : Module) (path k p : String) (ms : List Module)
    → lists_file k p ms ≡ true
    → lists_file k p (add_to_module new path ms) ≡ true
unfolding add_to_module
lists_file-kept new path k p [] h = cc
lists_file-kept new path k p (m ∷ ms) h =
    ground (arith, lists_file-kept new path k p ms, has_path-append p path m.files)

has_module-add :
    (new : Module) (path k : String) (ms : List Module)
    → has_module k ms ≡ false
    → str_eq new.id k ≡ false
    → has_module k (add_to_module new path ms) ≡ false
unfolding add_to_module
has_module-add new path k [] h n = ground arith
has_module-add new path k (m ∷ ms) h n = ground (arith, has_module-add new path k ms)

add_to_module-UniqueModules :
    (new : Module) (path : String) (ms : List Module)
    → UniqueModules ms
    → UniqueModules (add_to_module new path ms)
unfolding add_to_module
add_to_module-UniqueModules new path [] u = (refl, tt)
add_to_module-UniqueModules new path (m ∷ ms) u = elim (Bool-cases (str_eq m.id new.id)) [
  | inl same ↦ rw same u
  | inr other ↦ rw other (
    has_module-add new path m.id ms u.0
        (ground (arith, str_eq_iff new.id m.id, str_eq_iff m.id new.id)),
    add_to_module-UniqueModules new path ms u.1,
  )
]

module _ (texts : Texts) (path language : String) where
  methods_of-placed :
      (P : Function → Type 0)
      → ((cls : ParsedClass) (fn : ParsedFunction) → P (convert_method texts path language cls fn))
      → (classes : List ParsedClass) → All P (methods_of texts path language classes)
  unfolding methods_of
  methods_of-placed P h [] = tt
  methods_of-placed P h (cls ∷ rest) =
      All-append P (map (convert_method texts path language cls) cls.methods) _
        (All-mapped P (convert_method texts path language cls) (h cls) cls.methods)
        (methods_of-placed P h rest)

  -- A file that is added keeps a model modular.
  pub add_parsed_file-IsModular {ℓ} :
      {S : Type ℓ} (functions : List ParsedFunction) (classes : List ParsedClass)
      (m : SystemModel S)
      → IsModular m
      → IsModular (add_parsed_file texts path language functions classes m)
  unfolding add_parsed_file
  add_parsed_file-IsModular functions classes m v =
      let new = new_module texts path language in
      let ms = add_to_module new path m.modules in
      let listed = lists_file-add new path m.modules in
      record {
        unique = add_to_module-UniqueModules new path m.modules v.unique;
        placed =
            All-append (IsPlaced ms)
              (m.functions ++ map (convert_function texts path language) functions) _
              (All-append (IsPlaced ms) m.functions _
                (All-map (IsPlaced ms)
                  (λ f h. lists_file-kept new path f.module_id f.file m.modules h) m.functions
                  v.placed)
                (All-mapped (IsPlaced ms) (convert_function texts path language) (λ fn. listed)
                  functions))
              (methods_of-placed (IsPlaced ms) (λ cls fn. listed) classes);
      }
