-- ===== src/Examples/Paths.antt =====
-- Runs of src/compat/path.c and src/io/output.c on small inputs.
use criterion.Common.{map, ℕ, ◌≡◌, ◌≤◌, refl, Bool, some, List, [], ◌∷◌, Bytes, codes, bytes_eq}
use criterion.Common.{arith}
use criterion.Path.{cri_path_build, candidate, cri_path_gen_unique_filename}
use criterion.Path.Separators.{components}
use criterion.Path.Components.{components_of, components-cri_path_build}
use criterion.Common.{if◌then◌else◌, true, false}
use criterion.Output.{
  criterion_add_output, criterion_register_output_provider, process_all_output, reported,
  not_opened, file, is_created, write_output, basename_from,
}
use criterion.Output.Providers.{
  Call, add, register, calls, no_outputs, paths_for, is_registered, added, process_all_output-added,
}
use criterion.Output.Files.{write_output-unused}
use criterion.Path.Unique.{FirstFree, cri_path_gen_unique_filename-FirstFree}

abbrev parts : List Bytes
parts = codes "/var//log/" ∷ [] ∷ codes "/" ∷ codes "/reports\\" ∷ codes "all/" ∷ []

built : cri_path_build b'/' parts ≡ codes "/var//log/reports/all/"
unfolding cri_path_build
built = refl

components-cri_path_build_example : components (cri_path_build b'/' parts) ≡ components_of parts
components-cri_path_build_example = components-cri_path_build b'/' parts refl

-- The cases of test/path.c.
unit_tests :
    map (cri_path_build b'/') (
      ([] ∷ [])
      ∷ (codes " " ∷ [])
      ∷ (codes "/" ∷ [])
      ∷ (codes "//" ∷ [])
      ∷ (codes "///" ∷ [])
      ∷ (codes "a" ∷ [])
      ∷ (codes "//a//" ∷ [])
      ∷ (codes "/a" ∷ codes "b" ∷ codes "c" ∷ [])
      ∷ (codes "a" ∷ codes "b" ∷ codes "c/" ∷ [])
      ∷ (codes "/a" ∷ codes "b" ∷ codes "c/" ∷ [])
      ∷ (codes "a/b" ∷ codes "c//d" ∷ codes "e" ∷ [])
      ∷ (codes "/a/b" ∷ codes "//c//d//" ∷ codes "e//" ∷ [])
      ∷ (codes "/" ∷ codes "a" ∷ codes "/" ∷ [])
      ∷ (codes "//" ∷ codes "a" ∷ codes "//" ∷ [])
      ∷ (codes "///" ∷ codes "a" ∷ codes "///" ∷ [])
      ∷ (codes "a" ∷ codes "///" ∷ [])
      ∷ (codes "///" ∷ codes "a" ∷ [])
      ∷ (codes "a" ∷ codes "///" ∷ codes "b" ∷ [])
      ∷ (codes "a" ∷ codes "/" ∷ codes "b" ∷ [])
      ∷ ([] ∷ codes "a" ∷ [] ∷ codes "b//" ∷ codes "/" ∷ [] ∷ [])
      ∷ (codes "a" ∷ codes "b/" ∷ [] ∷ codes "/" ∷ codes "///" ∷ codes "c" ∷ [])
      ∷ (codes "a" ∷ codes "b" ∷ codes "c" ∷ [])
      ∷ (codes "/a/" ∷ codes "/b/" ∷ codes "/c" ∷ codes "d/" ∷ codes "e" ∷ [])
      ∷ (codes "//a//" ∷ codes "//b//" ∷ codes "//c//" ∷ [])
      ∷ [])
    ≡ []
      ∷ codes " "
      ∷ codes "/"
      ∷ codes "//"
      ∷ codes "///"
      ∷ codes "a"
      ∷ codes "//a//"
      ∷ codes "/a/b/c"
      ∷ codes "a/b/c/"
      ∷ codes "/a/b/c/"
      ∷ codes "a/b/c//d/e"
      ∷ codes "/a/b/c//d/e//"
      ∷ codes "/a/"
      ∷ codes "//a//"
      ∷ codes "///a///"
      ∷ codes "a///"
      ∷ codes "///a"
      ∷ codes "a/b"
      ∷ codes "a/b"
      ∷ codes "a/b/"
      ∷ codes "a/b/c"
      ∷ codes "a/b/c"
      ∷ codes "/a/b/c/d/e"
      ∷ codes "//a/b/c//"
      ∷ []
unfolding cri_path_build
unit_tests = refl

-- Those with a backslash as the separator.
windows_unit_tests :
    map (cri_path_build b'\\') (
      (codes "C:\\" ∷ codes "\\Users\\" ∷ codes "Snaipe" ∷ [])
      ∷ (codes "C:/" ∷ codes "\\Users//" ∷ codes "Snaipe\\" ∷ [])
      ∷ (codes "\\" ∷ codes "//test\\" ∷ codes "\\" ∷ [])
      ∷ [])
    ≡ codes "C:\\Users\\Snaipe" ∷ codes "C:\\Users\\Snaipe\\" ∷ codes "\\test\\" ∷ []
unfolding cri_path_build
windows_unit_tests = refl

abbrev taken : Bytes → Bool
taken name = bytes_eq name (codes "out/tests.xml")

second_name : candidate (codes "out/") (codes "tests") (codes "xml") 1 ≡ codes "out/tests_1.xml"
unfolding candidate
second_name = refl

cri_path_gen_unique_filename-FirstFree_example :
    (k : ℕ) × (cri_path_gen_unique_filename taken (codes "out/") (codes "tests") (codes "xml") 2
      ≡ some (candidate (codes "out/") (codes "tests") (codes "xml") k))
    × (k ≤ 1)
    × FirstFree taken (candidate (codes "out/") (codes "tests") (codes "xml")) 0 k
unfolding candidate bytes_eq
cri_path_gen_unique_filename-FirstFree_example =
    cri_path_gen_unique_filename-FirstFree taken (codes "out/") (codes "tests") (codes "xml") 1 2
      refl (omega arith)

-- Two outputs for a provider that is registered, and one for another.
abbrev asked : List Call
asked =
    add (codes "tap") (codes "-")
    ∷ register (codes "xml") 1
    ∷ add (codes "xml") (codes "out")
    ∷ add (codes "xml") (codes "out")
    ∷ []

abbrev is_out : Bytes → Bool
is_out path = bytes_eq path (codes "out")

abbrev never : Bytes → Bool
never path = false

abbrev always : Bytes → Bool
always path = true

-- The second report into the directory gets another name.
two_reports :
    process_all_output is_out never always (codes "bin/tests") 3 (calls asked no_outputs)
    ≡ record {
      provider = codes "xml";
      path = codes "out";
      outcome = reported 1 (file (codes "out/tests.xml"));
    }
      ∷ record {
        provider = codes "xml";
        path = codes "out";
        outcome = reported 1 (file (codes "out/tests_1.xml"));
      }
      ∷ []
unfolding process_all_output criterion_add_output criterion_register_output_provider
two_reports = refl

process_all_output-added_example :
    paths_for
      (codes "xml")
      (process_all_output is_out never always (codes "bin/tests") 3 (calls asked no_outputs))
    ≡ (if is_registered (codes "xml") asked then added (codes "xml") asked else [])
process_all_output-added_example =
    process_all_output-added is_out never always (codes "bin/tests") 3 (codes "xml") asked

write_output-unused_example :
    (f : Bytes) × (never f ≡ false)
    × (is_created (codes "out/tests.xml" ∷ []) f ≡ false)
    × ((write_output is_out never always
          (codes "bin/tests")
          3
          (codes "xml")
          1
          (codes "out")
          (codes "out/tests.xml" ∷ [])).0
        ≡ (if always f then reported 1 (file f) else not_opened f))
unfolding bytes_eq candidate basename_from
write_output-unused_example =
    write_output-unused is_out never always (codes "bin/tests") 3 (codes "xml") 1 (codes "out")
      (codes "out/tests.xml" ∷ []) 1 refl refl refl refl (omega arith)
