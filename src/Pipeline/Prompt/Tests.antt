-- ===== src/Pipeline/Prompt/Tests.antt =====
-- The imports of a short Go file.
use ping_goat.Common.{GoString, [], bytes, refl, ◌++◌, ◌≡◌}
use ping_goat.Pipeline.Prompt.Text.{split_lines, trim_space}
use ping_goat.Pipeline.Prompt.Imports.{extract_imports}
use ping_goat.Pipeline.Prompt.Imports.Picked.{picked, extract_imports-picked}

abbrev go_file : GoString
go_file =
    bytes "package a\n"
    ++ bytes "import (\n"
    ++ bytes "\t\"fmt\"\n"
    ++ bytes "\n"
    ++ bytes ")\n"
    ++ bytes "import \"os\"\n"
    ++ bytes "var x = 1\n"

go_imports : extract_imports go_file ≡ bytes "\"fmt\"\nimport \"os\"\n"
unfolding extract_imports split_lines trim_space
go_imports = refl

extract_imports-picked_example : extract_imports go_file ≡ picked [] (split_lines go_file)
extract_imports-picked_example = extract_imports-picked go_file
