-- ===== src/Worker/Paths/Tests.antt =====
-- The names of files of tests, on paths in one directory.
use Prim.Native.String.{slice, len, ◌++◌}
use qtest.Prelude.{◌≡◌, refl, String}
use qtest.Prelude.Texts.{has_suffix, trim_suffix, trim_prefix}
use qtest.Worker.Paths.{Paths, test_file_name, test_path, source_name, derive_source_path}
use qtest.Worker.Paths.RoundTrip.{py_ext, derive_source_path-test_path}

-- The directory has the first two bytes of a path, and an extension three.
abbrev paths : Paths
paths = record {
  dir = λ path. slice path 0 2;
  base = λ path. slice path 3 (len path);
  ext = λ base. slice base 6 (len base);
  join = λ dir name. dir ++ ("/" ++ name);
}

named : test_path paths "/w/parser.py" ≡ "/w/test_parser.py"
unfolding test_path test_file_name trim_suffix has_suffix
named = refl

unknown : derive_source_path paths "/w/parser.py" ≡ ""
unfolding derive_source_path source_name has_suffix trim_suffix trim_prefix
unknown = refl

abbrev test_name : String
test_name = test_file_name ".py" "parser"

in_dir : paths.dir (paths.join "/w" test_name) ≡ "/w"
unfolding test_file_name
in_dir = refl

is_named : paths.base (paths.join "/w" test_name) ≡ test_name
unfolding test_file_name
is_named = refl

derive_source_path-test_path_example :
    derive_source_path paths (test_path paths "/w/parser.py") ≡ "/w/parser.py"
derive_source_path-test_path_example =
    derive_source_path-test_path paths "/w" "parser" ".py" py_ext refl refl refl in_dir is_named
